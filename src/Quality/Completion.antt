-- ===== src/Quality/Completion.antt =====
-- What `complete_inspection` has tested, decided and written.
use mrp_django.Common.{show}
use mrp_django.Inventory.Model.{type_eq}
use mrp_django.Prelude.{
  ==_iff, >>=-ok, Bool-cases, List, Option-cases, Result, Table, Text, [], ap, arith, eqb_ℤ,
  eqb_ℤ_iff, err, false, get_elem?, inl, inr, insert, lookup, nat_eq, ok, option_eq, pair_eq, pos,
  pure, refl, roll_back, some, suc, text_eq, true, zero, ℕ, ℤ, ◌+ℤ◌, ◌<ℤ◌, ◌>>=◌, ◌∙◌, ◌∷◌, ◌≡◌,
  ◌≤ℤ◌,
}
use mrp_django.Quality.Model.{
  Characteristic, Db, Error, InspectionOrder, InspectionResult, Status, approved, partial, refused,
}
use mrp_django.Quality.Service.{
  close_order, complete_found, complete_inspection, completed, create_event, event_of, finish_order,
  has_result, lot_verdict, ncr_number, open_ncr, order_at, order_verdict, save_order, set_lot,
  some_missing,
}
use mrp_django.Quality.Writes.{create_event-Same, order_at-ok, set_lot-Same}
use mrp_django.Traceability.Lots.Service.{LotStatus, available, quarantine}

-- Every mandatory characteristic of the plan has a result.
abbrev pub AllMeasured : ℕ → ℕ → Db → Type 0
AllMeasured pk plan db =
    (i : ℕ) (c : Characteristic)
    → get_elem? db.characteristics i ≡ some c
    → c.plan ≡ plan
    → c.is_mandatory ≡ true
    → has_result pk c.pk db.results ≡ true

some_missing-AllMeasured :
    (pk plan : ℕ) (cs : List Characteristic) (rows : Table (ℕ × (ℕ × ℕ)) InspectionResult)
    → some_missing pk plan cs rows ≡ false
    → (i : ℕ) (c : Characteristic) → get_elem? cs i ≡ some c
    → c.plan ≡ plan
    → c.is_mandatory ≡ true
    → has_result pk c.pk rows ≡ true
unfolding some_missing
some_missing-AllMeasured pk plan [] rows e i c at p m = cc
some_missing-AllMeasured pk plan (k ∷ cs) rows e zero c at p m = ground (arith, ==_iff k.plan plan)
some_missing-AllMeasured pk plan (k ∷ cs) rows e (suc i) c at p m =
    some_missing-AllMeasured pk plan cs rows (ground arith) i c at p m

-- What a completion decides, by what was approved and rejected.
pub data Verdict (good bad : ℤ) : Status → LotStatus → Type 0 where
  all_good : bad ≡ pos 0 → Verdict good bad approved available
  all_bad : pos 0 <ℤ bad → good ≡ pos 0 → Verdict good bad refused LotStatus.rejected
  mixed : pos 0 <ℤ bad → pos 0 <ℤ good → Verdict good bad partial quarantine

strict : (n : ℤ) → pos 0 ≤ℤ n → eqb_ℤ n (pos 0) ≡ false → pos 0 <ℤ n
strict n h e = ground arith

verdicts :
    (good bad : ℤ)
    → pos 0 ≤ℤ good
    → pos 0 ≤ℤ bad
    → Verdict good bad (order_verdict good bad) (lot_verdict good bad)
unfolding order_verdict lot_verdict
verdicts good bad g b = elim (Bool-cases (eqb_ℤ bad (pos 0))) [
  | inl t ↦ rw t (all_good ((eqb_ℤ_iff bad (pos 0)).0 t))
  | inr f ↦ elim (Bool-cases (eqb_ℤ good (pos 0))) [
    | inl t ↦ rw (f, t) (all_bad (strict bad b f) ((eqb_ℤ_iff good (pos 0)).0 t))
    | inr h ↦ rw (f, h) (mixed (strict bad b f) (strict good g h))
  ]
]

-- What a successful completion has found and written.
pub record Completed (pk : ℕ) (good bad : ℤ) (today : Text) (db : Db) (o : InspectionOrder)
    (db' : Db) : Type 0 where
  pub old : InspectionOrder
  pub found : lookup pk db.orders ≡ some old
  pub bounds : (pos 0 ≤ℤ good) × (pos 0 ≤ℤ bad) × (good +ℤ bad ≤ℤ old.quantity_received)
  pub measured : AllMeasured pk old.plan db
  pub verdict : Verdict good bad o.status (lot_verdict good bad)
  pub is_completed : o ≡ completed old good bad
  pub inspected : o.quantity_inspected ≡ good +ℤ bad
  pub accepted_quantity : o.quantity_approved ≡ good
  pub refused_quantity : o.quantity_rejected ≡ bad
  pub received_kept : o.quantity_received ≡ old.quantity_received
  pub lot_kept : o.lot ≡ old.lot
  pub orders : db'.orders ≡ insert pk o db.orders
  pub lot : (l : ℕ) → old.lot ≡ some l → lookup l db'.lots ≡ some (lot_verdict good bad)
  pub ncrs : db'.ncrs ≡ (open_ncr pk old bad today db).ncrs
  pub dispositions : db'.dispositions ≡ db.dispositions

-- A non-conformance is opened beside the other tables.
pub record Opened (pk : ℕ) (order : InspectionOrder) (bad : ℤ) (today : Text) (db : Db)
    : Type 0 where
  pub orders : (open_ncr pk order bad today db).orders ≡ db.orders
  pub lots : (open_ncr pk order bad today db).lots ≡ db.lots
  pub dispositions : (open_ncr pk order bad today db).dispositions ≡ db.dispositions
  pub only :
      (db' : Db)
      → db'.ncrs ≡ db.ncrs
      → (open_ncr pk order bad today db').ncrs ≡ (open_ncr pk order bad today db).ncrs

pub open_ncr-Opened :
    (pk : ℕ) (order : InspectionOrder) (bad : ℤ) (today : Text) (db : Db)
    → Opened pk order bad today db
unfolding open_ncr
open_ncr-Opened pk order bad today db = elim (Option-cases (lookup (ncr_number pk today) db.ncrs)) [
  | inl n ↦ record {
    orders = ground (arith, n);
    lots = ground (arith, n);
    dispositions = ground (arith, n);
    only = λ db' q. rw q (ground (arith, n, q));
  }
  | inr (r, f) ↦ record {
    orders = ground (arith, f);
    lots = ground (arith, f);
    dispositions = ground (arith, f);
    only = λ db' q. rw q (ground (arith, f, q));
  }
]

finish_order-ok :
    (pk : ℕ) (old o : InspectionOrder) (good bad : ℤ) (today now : Text) (db db' : Db)
    → finish_order pk old good bad today now db ≡ (ok o, db')
    → (o ≡ completed old good bad)
      × (db'.orders ≡ db.orders)
      × (db'.lots ≡ db.lots)
      × (db'.ncrs ≡ (open_ncr pk old bad today db).ncrs)
      × (db'.dispositions ≡ db.dispositions)
unfolding finish_order
finish_order-ok pk old o good bad today now db db' e =
    let ev = event_of "quality.inspection.completed" "InspectionOrder" (show pk) now in
    let (_, t, e1, r1) =
      >>=-ok (create_event ev) (λ _. pure (completed old good bad)) (open_ncr pk old bad today db)
        e in
    let (c, lots) = create_event-Same ev _ t e1 in
    let n = open_ncr-Opened pk old bad today db in
    let last : db' ≡ t = ground arith in
    (
      ground arith,
      rw last (c.orders ∙ n.orders),
      rw last (lots ∙ n.lots),
      rw last c.ncrs,
      rw last (c.dispositions ∙ n.dispositions),
    )

-- What closing an order writes.
record Closed (pk : ℕ) (old : InspectionOrder) (good bad : ℤ) (today : Text) (db : Db)
    (o : InspectionOrder) (db' : Db) : Type 0 where
  is_completed : o ≡ completed old good bad
  orders : db'.orders ≡ insert pk o db.orders
  lot : (l : ℕ) → old.lot ≡ some l → lookup l db'.lots ≡ some (lot_verdict good bad)
  ncrs : db'.ncrs ≡ (open_ncr pk old bad today db).ncrs
  dispositions : db'.dispositions ≡ db.dispositions

finish_order-Closed :
    (pk : ℕ) (old o : InspectionOrder) (good bad : ℤ) (today now : Text) (db mid db' : Db)
    → mid.orders ≡ insert pk (completed old good bad) db.orders
    → ((l : ℕ) → old.lot ≡ some l → lookup l mid.lots ≡ some (lot_verdict good bad))
    → mid.ncrs ≡ db.ncrs
    → mid.dispositions ≡ db.dispositions
    → finish_order pk old good bad today now mid ≡ (ok o, db')
    → Closed pk old good bad today db o db'
finish_order-Closed pk old o good bad today now db mid db' os lot ns ds e =
    let (is_new, orders, lots, ncrs, dispositions) =
      finish_order-ok pk old o good bad today now mid db' e in
    record {
      is_completed = is_new;
      orders = rw is_new (orders ∙ os);
      lot = λ l q. ap (lookup l) lots ∙ lot l q;
      ncrs = ncrs ∙ (open_ncr-Opened pk old bad today db).only mid ns;
      dispositions = dispositions ∙ ds;
    }

close_order-Closed :
    (pk : ℕ) (old o : InspectionOrder) (good bad : ℤ) (today now : Text) (db db' : Db)
    → close_order pk old good bad today now db ≡ (ok o, db')
    → Closed pk old good bad today db o db'
unfolding close_order save_order
close_order-Closed pk old o good bad today now db db' e =
    let mid : Db = save_order pk (completed old good bad) db in
    let (_, u, e3, r3) =
      >>=-ok (set_lot old.lot (lot_verdict good bad)) (λ _. finish_order pk old good bad today now)
        mid e in
    let (kept, lot) = set_lot-Same old.lot (lot_verdict good bad) mid u e3 in
    finish_order-Closed pk old o good bad today now db u db' kept.orders lot kept.ncrs
      kept.dispositions r3

guards-ok :
    (pk : ℕ) (good bad : ℤ) (today now : Text) (old o : InspectionOrder) (db db' : Db)
    → complete_found pk good bad today now old db ≡ (ok o, db')
    → ((pos 0 ≤ℤ good) × (pos 0 ≤ℤ bad) × (good +ℤ bad ≤ℤ old.quantity_received))
      × (some_missing pk old.plan db.characteristics db.results ≡ false)
      × (close_order pk old good bad today now db ≡ (ok o, db'))
unfolding complete_found
guards-ok pk good bad today now old o db db' e =
    ((ground arith, ground arith, ground arith), ground arith, ground arith)

complete_found-Completed :
    (pk : ℕ) (good bad : ℤ) (today now : Text) (old o : InspectionOrder) (db db' : Db)
    → lookup pk db.orders ≡ some old
    → complete_found pk good bad today now old db ≡ (ok o, db')
    → Completed pk good bad today db o db'
unfolding completed
complete_found-Completed pk good bad today now old o db db' found e =
    let (bounds, none_missing, closing) = guards-ok pk good bad today now old o db db' e in
    let c = close_order-Closed pk old o good bad today now db db' closing in
    record {
      old = old;
      found = found;
      bounds = bounds;
      measured = some_missing-AllMeasured pk old.plan db.characteristics db.results none_missing;
      verdict = rw (c.is_completed) (verdicts good bad bounds.0 bounds.1);
      is_completed = c.is_completed;
      inspected = ap (λ (x : InspectionOrder). x.quantity_inspected) c.is_completed;
      accepted_quantity = ap (λ (x : InspectionOrder). x.quantity_approved) c.is_completed;
      refused_quantity = ap (λ (x : InspectionOrder). x.quantity_rejected) c.is_completed;
      received_kept = ap (λ (x : InspectionOrder). x.quantity_received) c.is_completed;
      lot_kept = ap (λ (x : InspectionOrder). x.lot) c.is_completed;
      orders = c.orders;
      lot = c.lot;
      ncrs = c.ncrs;
      dispositions = c.dispositions;
    }

-- Every outcome of a completion.
abbrev pub Completes : ℕ → ℤ → ℤ → Text → Db → Result Error InspectionOrder × Db → Type 0
Completes pk good bad today db (ok o, db') = Completed pk good bad today db o db'
Completes pk good bad today db (err e, db') = db' ≡ db

-- A refused completion changes nothing. One that succeeds has two quantities that are not negative
-- and together at most what was received, and a result for every mandatory characteristic; it
-- approves the order and frees its lot when nothing is rejected, refuses both when all of it is
-- rejected, else accepts the order in part and puts the lot in quarantine; it stores the order with
-- these quantities and leaves every disposition alone.
pub complete_inspection-Completes :
    (pk : ℕ) (good bad : ℤ) (today now : Text) (db : Db)
    → Completes pk good bad today db (complete_inspection pk good bad today now db)
unfolding complete_inspection
complete_inspection-Completes pk good bad today now db =
    by_result ((order_at pk >>= complete_found pk good bad today now) db) refl
  where
    by_result :
        (p : Result Error InspectionOrder × Db)
        → (order_at pk >>= complete_found pk good bad today now) db ≡ p
        → Completes pk good bad today db (roll_back db p)
    by_result (err x, db') e = refl
    by_result (ok o, db') e =
        let (old, s, e1, r1) = >>=-ok (order_at pk) (complete_found pk good bad today now) db e in
        let (found, same) = order_at-ok pk old db s e1 in
        complete_found-Completed pk good bad today now old o db db' found (rw same at r1)
