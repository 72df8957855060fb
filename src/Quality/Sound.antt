-- ===== src/Quality/Sound.antt =====
-- The quantities of inspection orders and non-conformances under any sequence of calls.
use mathlib.Core.Path.{subst}
use mrp_django.Inventory.Model.{type_eq}
use mrp_django.Prelude.{
  ==_iff, Bool, Bool-cases, List, Option, Result, Text, [], ap, arith, eqb_ℤ, eqb_ℤ_iff, err, false,
  if◌then◌else◌, inl, inr, insert, int_laws, lookup, lookup-insert, ltb_ℤ, nat_eq, none, ok,
  option_eq, pair_eq, pos, refl, roll_back, some, sym, text_eq, true, ℕ, ℤ, ◌+ℤ◌, ◌<ℤ◌, ◌==◌, ◌>>=◌,
  ◌∙◌, ◌∷◌, ◌≡◌,
}
use mrp_django.Quality.Completion.{
  Completed, Completes, complete_inspection-Completes, open_ncr-Opened,
}
use mrp_django.Quality.Dispositions.{Disposed, Disposes, apply_disposition-Disposes}
use mrp_django.Quality.Model.{
  Characteristic, Db, Disposition, Error, InspectionOrder, InspectionResult, NonConformance,
  ncr_open, status_code,
}
use mrp_django.Quality.Orders.{Rewritten-IsSound, start_inspection-Rewritten}
use mrp_django.Quality.Results.{Measures, record_result-Measures}
use mrp_django.Quality.Service.{
  apply_disposition, complete_inspection, completed, create_ncr, disposed, ncr_number, open_ncr,
  order_at, record_result, save_order, start_found, start_inspection, started_if_open,
}
use mrp_django.Quality.Writes.{
  IsBalanced, IsSound, IsWithin, Same-IsSound, is_dispositioned, save_order-IsSound,
}

started-IsSound :
    (pk : ℕ) (now : Text) (db : Db) → IsSound db → IsSound (start_inspection pk now db).1
unfolding start_inspection
started-IsSound pk now db h = by_result ((order_at pk >>= start_found pk now) db) refl
  where
    by_result :
        (p : Result Error InspectionOrder × Db)
        → (order_at pk >>= start_found pk now) db ≡ p
        → IsSound (roll_back db p).1
    by_result (err x, db') e = h
    by_result (ok o, db') e =
        let (old, is_open, new, w) =
          start_inspection-Rewritten pk now o db db' (ap (roll_back db) e) in
        Rewritten-IsSound pk old o db db' w (λ b. rw new b) h

open_ncr-IsSound :
    (pk : ℕ) (order : InspectionOrder) (bad : ℤ) (today : Text) (db : Db)
    → IsSound db
    → IsSound (open_ncr pk order bad today db)
unfolding open_ncr
open_ncr-IsSound pk order bad today db h = by_row (lookup number db.ncrs) refl
  where
    number : Text
    number = ncr_number pk today

    row : NonConformance
    row = record {
      inspection_order = some pk;
      lot = order.lot;
      quantity_affected = bad;
      status = ncr_open;
    }

    created :
        lookup number db.ncrs ≡ none
        → pos 0 <ℤ bad
        → (n : Text) → IsWithin (lookup n (insert number row db.ncrs)) (disposed n db.dispositions)
    created missing positive n =
        rw (lookup-insert number n row db.ncrs) (by_number (number == n) refl)
      where
        by_number :
            (b : Bool)
            → (number == n) ≡ b
            → IsWithin (if b then some row else lookup n db.ncrs) (disposed n db.dispositions)
        by_number false q = h.ncrs n
        by_number true q =
            let same = (==_iff number n).0 q in
            let zero_total : disposed n db.dispositions ≡ pos 0 =
              rw (← same) (
                subst (λ o. IsWithin o (disposed number db.dispositions)) missing
                  (h.ncrs number)) in
            rw zero_total
              (omega int_laws, omega (int_laws, positive), positive, ground (arith, positive))

    by_row :
        (o : Option NonConformance)
        → lookup number db.ncrs ≡ o
        → IsSound (if ltb_ℤ (pos 0) bad then create_ncr o number row db else db)
    by_row (some r) q = elim (Bool-cases (ltb_ℤ (pos 0) bad)) [ inr f ↦ rw f h | inl t ↦ rw t h ]
    by_row none q = elim (Bool-cases (ltb_ℤ (pos 0) bad)) [
      | inr f ↦ rw f h
      | inl t ↦ rw t (record { orders = h.orders; ncrs = created q (ground (arith, t)) })
    ]

Completed-IsSound :
    (pk : ℕ) (good bad : ℤ) (today : Text) (db : Db) (o : InspectionOrder) (db' : Db)
    → Completed pk good bad today db o db'
    → IsSound db
    → IsSound db'
unfolding save_order completed
Completed-IsSound pk good bad today db o db' c h =
    let n = open_ncr-Opened pk c.old bad today db in
    let opened = open_ncr-IsSound pk c.old bad today db h in
    let balanced : IsBalanced (some o) =
      rw (c.is_completed) (c.bounds.0, c.bounds.1, refl, c.bounds.2) in
    Same-IsSound (save_order pk o (open_ncr pk c.old bad today db)) db'
      (record {
        orders = c.orders ∙ ap (insert pk o) (sym n.orders);
        ncrs = c.ncrs;
        dispositions = c.dispositions ∙ sym n.dispositions;
      })
      (save_order-IsSound pk o (open_ncr pk c.old bad today db) balanced opened)

Disposed-IsSound :
    (d r : Disposition) (db db' : Db) → Disposed d db r db' → IsSound db → IsSound db'
unfolding disposed
Disposed-IsSound d r db db' c h = record {
  orders = λ pk. rw (c.orders) (h.orders pk);
  ncrs = λ n. rw (c.stored n, c.dispositions) (by_number n (d.nonconformance == n) refl);
}
  where
    number : Text
    number = d.nonconformance

    total : ℤ
    total = disposed number db.dispositions +ℤ d.quantity

    before : IsWithin (some c.old) (disposed number db.dispositions)
    before = subst (λ o. IsWithin o (disposed number db.dispositions)) c.found (h.ncrs number)

    status : is_dispositioned c.new.status ≡ eqb_ℤ total c.old.quantity_affected
    status = elim (Bool-cases (eqb_ℤ total c.old.quantity_affected)) [
      | inl t ↦ rw (t, c.all_done ((eqb_ℤ_iff total c.old.quantity_affected).0 t)) refl
      | inr f ↦
          rw (f, c.part_done (λ q. cc (f, (eqb_ℤ_iff total c.old.quantity_affected).1 q)), before.3)
            (grind (int_laws, c.positive, c.within))
    ]

    by_number :
        (n : Text) (b : Bool)
        → (number == n) ≡ b
        → IsWithin
            (if b then some c.new else lookup n db.ncrs)
            (if b then d.quantity +ℤ disposed n db.dispositions else disposed n db.dispositions)
    by_number n false q = h.ncrs n
    by_number n true q =
        let same : number ≡ n = (==_iff number n).0 q in
        let comm : total ≡ d.quantity +ℤ disposed number db.dispositions = omega int_laws in
        rw (← same) (
          omega (int_laws, before.0, c.positive),
          rw c.affected (omega (int_laws, c.within)),
          rw c.affected before.2,
          rw c.affected (status ∙ ap (λ x. eqb_ℤ x c.old.quantity_affected) comm),
        )

-- One call of the service, with its times of day.
pub data Call : Type 0 where
  start : ℕ → Text → Call
  measure_one : ℕ → Characteristic → ℕ → Option ℤ → Option Bool → Call
  complete : ℕ → ℤ → ℤ → Text → Text → Call
  dispose : Disposition → Text → Call

unfoldable pub step : Call → Db → Db
step (start pk now) db = (start_inspection pk now db).1
step (measure_one pk c sample v b) db = (record_result pk c sample v b db).1
step (complete pk good bad today now) db = (complete_inspection pk good bad today now db).1
step (dispose d now) db = (apply_disposition d now db).1

unfoldable pub inspect : List Call → Db → Db
inspect [] db = db
inspect (c ∷ cs) db = inspect cs (step c db)

started_if_open-IsBalanced :
    (o : InspectionOrder) → IsBalanced (some o) → IsBalanced (some (started_if_open o))
unfolding started_if_open
started_if_open-IsBalanced o h = elim (Bool-cases (status_code o.status == 0)) [
  | inl t ↦ rw t h
  | inr f ↦ rw f h
]

step-IsSound : (c : Call) (db : Db) → IsSound db → IsSound (step c db)
unfolding step
step-IsSound (start pk now) db h = started-IsSound pk now db h
step-IsSound (measure_one pk c sample v b) db h =
    by_result (record_result pk c sample v b db) (record_result-Measures pk c sample v b db)
  where
    by_result :
        (p : Result Error InspectionResult × Db) → Measures pk c sample v b db p → IsSound p.1
    by_result (err x, db') same = rw same h
    by_result (ok r, db') m =
        Rewritten-IsSound pk m.order (started_if_open m.order) db db'
          (record {
            found = m.found;
            orders = m.begun;
            ncrs = m.ncrs;
            dispositions = m.dispositions;
          })
          (started_if_open-IsBalanced m.order) h
step-IsSound (complete pk good bad today now) db h =
    by_result (complete_inspection pk good bad today now db)
      (complete_inspection-Completes pk good bad today now db)
  where
    by_result :
        (p : Result Error InspectionOrder × Db) → Completes pk good bad today db p → IsSound p.1
    by_result (err x, db') same = rw same h
    by_result (ok o, db') c = Completed-IsSound pk good bad today db o db' c h
step-IsSound (dispose d now) db h =
    by_result (apply_disposition d now db) (apply_disposition-Disposes d now db)
  where
    by_result : (p : Result Error Disposition × Db) → Disposes d db p → IsSound p.1
    by_result (err x, db') same = rw same h
    by_result (ok r, db') c = Disposed-IsSound d r db db' c h

-- From tables of which it holds, after any sequence of calls, refused ones included: each order has
-- inspected what it approved and rejected, no negative part and at most what was received; and for
-- each non-conformance what is disposed is between zero and what is affected, with the status
-- DISPOSITIONED exactly when they are equal.
pub inspect-IsSound : (cs : List Call) (db : Db) → IsSound db → IsSound (inspect cs db)
unfolding inspect
inspect-IsSound [] db h = h
inspect-IsSound (c ∷ cs) db h = inspect-IsSound cs (step c db) (step-IsSound c db h)
