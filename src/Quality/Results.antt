-- ===== src/Quality/Results.antt =====
-- What `record_result` has stored, against the limits of the characteristic.
use mrp_django.Inventory.Model.{type_eq}
use mrp_django.Prelude.{
  ==_iff, >>=-ok, Bool, Option, Option-cases, Result, ap, arith, err, inl, inr, insert, lookup,
  lookup-insert_self, nat_eq, none, not, ok, option_eq, pair_eq, refl, roll_back, some, text_eq,
  true, ℕ, ℤ, ◌>>=◌, ◌↔◌, ◌∙◌, ◌≡◌, ◌≤ℤ◌,
}
use mrp_django.Quality.Model.{
  Characteristic, DataType, Db, Error, InspectionOrder, InspectionResult, boolean, in_progress,
  numeric, order_open, text,
}
use mrp_django.Quality.Service.{
  above, accepts, below, conforms, measure, order_at, record_result, save_order, save_result,
  started_if_open,
}
use mrp_django.Quality.Writes.{order_at-ok}

-- What it is for a measurement to conform, by the kind of the characteristic.
abbrev pub IsAtLeast : Option ℤ → ℤ → Type 0
IsAtLeast none v = Unit {0}
IsAtLeast (some limit) v = limit ≤ℤ v

abbrev pub IsAtMost : Option ℤ → ℤ → Type 0
IsAtMost none v = Unit {0}
IsAtMost (some limit) v = v ≤ℤ limit

abbrev pub IsConforming : Characteristic → DataType → Option ℤ → Option Bool → Type 0
IsConforming c numeric none b = ⊥
IsConforming c numeric (some v) b = IsAtLeast c.lower_limit v × IsAtMost c.upper_limit v
IsConforming c boolean v none = ⊥
IsConforming c boolean v (some b) = b ≡ true
IsConforming c text v b = Unit {0}

below-IsAtLeast : (limit : Option ℤ) (v : ℤ) → (not (below v limit) ≡ true) ↔ IsAtLeast limit v
unfolding below
below-IsAtLeast none v = (λ e. tt, λ h. refl)
below-IsAtLeast (some l) v = (λ e. ground arith, λ h. ground arith)

above-IsAtMost : (limit : Option ℤ) (v : ℤ) → (not (above v limit) ≡ true) ↔ IsAtMost limit v
unfolding above
above-IsAtMost none v = (λ e. tt, λ h. refl)
above-IsAtMost (some l) v = (λ e. ground arith, λ h. ground arith)

conforms-IsConforming :
    (c : Characteristic) (ty : DataType) (v : Option ℤ) (b : Option Bool) (r : Bool)
    → conforms c ty v b ≡ some r
    → (r ≡ true) ↔ IsConforming c ty v b
conforms-IsConforming c numeric none b r e = cc
conforms-IsConforming c numeric (some v) b r e =
    let low = below-IsAtLeast c.lower_limit v in
    let high = above-IsAtMost c.upper_limit v in
    (
      λ q. (low.0 (ground (arith, e)), high.0 (ground (arith, e))),
      λ h. ground (arith, e, low.1 h.0, high.1 h.1),
    )
conforms-IsConforming c boolean v none r e = cc
conforms-IsConforming c boolean v (some b) r e = (λ q. ground (arith, e), λ h. ground (arith, e))
conforms-IsConforming c text v b r e = (λ q. tt, λ h. ground arith)

-- What a successful `record_result` has found and written.
pub record Measured (pk : ℕ) (c : Characteristic) (sample : ℕ) (v : Option ℤ) (b : Option Bool)
    (db : Db) (r : InspectionResult) (db' : Db) : Type 0 where
  pub order : InspectionOrder
  pub found : lookup pk db.orders ≡ some order
  pub accepting : accepts order.status ≡ true
  pub plan : c.plan ≡ order.plan
  pub conforming : (r.is_conforming ≡ true) ↔ IsConforming c c.data_type v b
  pub stored : lookup (pk, (c.pk, sample)) db'.results ≡ some r
  pub begun : db'.orders ≡ insert pk (started_if_open order) db.orders
  pub starts :
      order.status ≡ order_open
      → lookup pk db'.orders ≡ some (record order { status = in_progress })
  pub goes_on : order.status ≡ in_progress → lookup pk db'.orders ≡ some order
  pub ncrs : db'.ncrs ≡ db.ncrs
  pub dispositions : db'.dispositions ≡ db.dispositions

started_if_open-open :
    (order : InspectionOrder)
    → order.status ≡ order_open
    → started_if_open order ≡ record order { status = in_progress }
unfolding started_if_open
started_if_open-open order q = ground (arith, q)

started_if_open-begun :
    (order : InspectionOrder) → order.status ≡ in_progress → started_if_open order ≡ order
unfolding started_if_open
started_if_open-begun order q = ground (arith, q)

measure-Measured :
    (pk : ℕ) (c : Characteristic) (sample : ℕ) (v : Option ℤ) (b : Option Bool)
    (order : InspectionOrder) (r : InspectionResult) (db db' : Db)
    → lookup pk db.orders ≡ some order
    → measure pk c sample v b order db ≡ (ok r, db')
    → Measured pk c sample v b db r db'
unfolding measure save_result save_order
measure-Measured pk c sample v b order r db db' found e =
    elim (Option-cases (conforms c c.data_type v b)) [
      | inl n ↦ ground (arith, n)
      | inr (q, f) ↦
          let wrote : r ≡ record { numeric_value = v; boolean_value = b; is_conforming = q } =
            ground (arith, f) in
          let done : db' ≡ save_result pk order (pk, (c.pk, sample)) r db = ground (arith, f) in
          record {
            order = order;
            found = found;
            accepting = ground (arith, f);
            plan = ground (arith, f, ==_iff c.plan order.plan);
            conforming = rw wrote (conforms-IsConforming c c.data_type v b q f);
            stored = rw done (lookup-insert_self (pk, (c.pk, sample)) r db.results);
            begun = ap (λ (d : Db). d.orders) done;
            starts = λ q.
                ap (λ (d : Db). lookup pk d.orders) done
                ∙ lookup-insert_self pk (started_if_open order) db.orders
                ∙ ap some (started_if_open-open order q);
            goes_on = λ q.
                ap (λ (d : Db). lookup pk d.orders) done
                ∙ lookup-insert_self pk (started_if_open order) db.orders
                ∙ ap some (started_if_open-begun order q);
            ncrs = ap (λ (d : Db). d.ncrs) done;
            dispositions = ap (λ (d : Db). d.dispositions) done;
          }
    ]

-- Every outcome of a call.
abbrev pub Measures :
    ℕ
    → Characteristic
    → ℕ
    → Option ℤ
    → Option Bool
    → Db
    → Result Error InspectionResult × Db
    → Type 0
Measures pk c sample v b db (ok r, db') = Measured pk c sample v b db r db'
Measures pk c sample v b db (err e, db') = db' ≡ db

-- A refused measurement changes nothing. One that is accepted belongs to the plan of an order that
-- is open or in progress, is stored under the order, the characteristic and the sample number, is
-- marked as conforming exactly when it respects each limit that is set (a Boolean one, when it is
-- true), puts an open order in progress and leaves non-conformances and dispositions alone.
pub record_result-Measures :
    (pk : ℕ) (c : Characteristic) (sample : ℕ) (v : Option ℤ) (b : Option Bool) (db : Db)
    → Measures pk c sample v b db (record_result pk c sample v b db)
unfolding record_result
record_result-Measures pk c sample v b db =
    by_result ((order_at pk >>= measure pk c sample v b) db) refl
  where
    by_result :
        (p : Result Error InspectionResult × Db)
        → (order_at pk >>= measure pk c sample v b) db ≡ p
        → Measures pk c sample v b db (roll_back db p)
    by_result (err x, db') e = refl
    by_result (ok r, db') e =
        let (o, s, e1, r1) = >>=-ok (order_at pk) (measure pk c sample v b) db e in
        let (found, same) = order_at-ok pk o db s e1 in
        measure-Measured pk c sample v b o r db db' found (rw same at r1)
