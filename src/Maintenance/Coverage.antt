-- ===== src/Maintenance/Coverage.antt =====
-- Which plans have an order after the preventive orders are generated.
use mathlib.Core.Option.{some-injective}
use mathlib.Core.Path.{subst}
use mrp_django.Common.{show}
use mrp_django.Inventory.Model.{type_eq}
use mrp_django.Maintenance.Completion.{latest_meter}
use mrp_django.Maintenance.Model.{
  Db, Error, MaintenancePlan, MaintenanceWorkOrder, add_event, number_taken, on_floor,
}
use mrp_django.Maintenance.Preventive.{
  append_order, create_order, generate_all, generate_for, generate_new, generate_one,
  generate_preventive_orders, has_number, has_open_order, is_open_for, is_wanted, new_order,
  plan_is_due, preventive_order,
}
use mrp_django.Prelude.{
  ==_iff, Bool, Bool-cases, List, Result, Table, [], arith, codes, err, false, get_elem?,
  if◌then◌else◌, inl, inr, length, modify, nat_eq, not, ok, option_eq, pair_eq, raise_if, refl,
  roll_back, some, suc, sym, text_eq, true, zero, ℕ, ◌&&◌, ◌++◌, ◌+◌, ◌==◌, ◌>>◌, ◌∙◌, ◌∷◌, ◌≡◌,
  ◌≤◌,
}
use native.Mathlib.Nat.{le_refl}

-- How many open orders a plan has.
unfoldable pub open_orders : ℕ → List MaintenanceWorkOrder → ℕ
open_orders plan [] = 0
open_orders plan (wo ∷ orders) =
    let rest = open_orders plan orders in if is_open_for plan wo then suc rest else rest

open_orders-snoc :
    (plan : ℕ) (orders : List MaintenanceWorkOrder) (wo : MaintenanceWorkOrder)
    → open_orders plan (orders ++ wo ∷ [])
      ≡ open_orders plan orders + (if is_open_for plan wo then 1 else 0)
unfolding open_orders
open_orders-snoc plan [] wo = ground arith
open_orders-snoc plan (w ∷ orders) wo = ground (arith, open_orders-snoc plan orders wo)

has_open_order-open_orders :
    (plan : ℕ) (orders : List MaintenanceWorkOrder)
    → has_open_order plan orders ≡ not (open_orders plan orders == 0)
unfolding open_orders has_open_order
has_open_order-open_orders plan [] = refl
has_open_order-open_orders plan (wo ∷ orders) =
    ground (arith, has_open_order-open_orders plan orders, ==_iff (open_orders plan orders) 0)

abbrev pub AtMostOne : Db → Type 0
AtMostOne db = (plan : ℕ) → open_orders plan db.orders ≤ 1

-- No order is lost, and what decides on a plan is as before.
record Grew (db db' : Db) : Type 0 where
  assets : db'.assets ≡ db.assets
  readings : db'.readings ≡ db.readings
  more : (plan : ℕ) → open_orders plan db.orders ≤ open_orders plan db'.orders

Grew-refl : (db : Db) → Grew db db
Grew-refl db = record { assets = refl; readings = refl; more = λ plan. le_refl _ }

Grew-trans : (a b c : Db) → Grew a b → Grew b c → Grew a c
Grew-trans a b c g h = record {
  assets = h.assets ∙ g.assets;
  readings = h.readings ∙ g.readings;
  more = λ plan. omega (arith, g.more plan, h.more plan);
}

is_wanted-Grew :
    (plant date : ℕ) (p : MaintenancePlan) (db db' : Db)
    → Grew db db'
    → is_wanted plant date p db' ≡ is_wanted plant date p db
unfolding is_wanted plan_is_due latest_meter
is_wanted-Grew plant date p db db' g = rw (g.assets, g.readings) refl

module _ (plant year date : ℕ) where
  -- What the turn of one plan has done.
  abbrev Turn : ℕ → MaintenancePlan → Db → Result Error (Unit {0}) × Db → Type 0
  Turn k p db (err x, db') = x ≡ number_taken
  Turn k p db (ok u, db') =
      AtMostOne db'
      × Grew db db'
      × (is_wanted plant date p db ≡ true → open_orders k db'.orders ≡ 1)

  generate_new-Turn :
      (k : ℕ) (p : MaintenancePlan) (db : Db)
      → has_open_order k db.orders ≡ false
      → AtMostOne db
      → Turn k p db (generate_new plant year k p db)
  unfolding generate_new create_order append_order add_event on_floor preventive_order new_order
      is_open_for
  generate_new-Turn k p db none_open h =
      let wo = preventive_order plant year k p db in
      let note =
        add_event (codes "maint-generated:" ++ show (length db.orders))
          "MAINTENANCE_ORDER_GENERATED" "MaintenanceWorkOrder" (length db.orders) in
      let body : Bool → Result Error (Unit {0}) × Db =
        λ b. (raise_if b number_taken >> modify (append_order wo) >> modify note) db in
      let grown : (plan : ℕ)
          → open_orders plan (db.orders ++ wo ∷ [])
            ≡ open_orders plan db.orders + (if k == plan then 1 else 0) =
        λ plan. open_orders-snoc plan db.orders wo ∙ ground arith in
      let none_yet : open_orders k db.orders ≡ 0 = ground (
        arith,
        none_open,
        has_open_order-open_orders k db.orders,
        ==_iff (open_orders k db.orders) 0,
      ) in
      elim (Bool-cases (has_number wo.number db.orders)) [
        | inl t ↦ subst (λ b. Turn k p db (body b)) (sym t) refl
        | inr n ↦
            subst (λ b. Turn k p db (body b)) (sym n)
              (
                (λ plan. ground (arith, grown plan, h plan, ==_iff k plan, none_yet)),
                record {
                  assets = refl;
                  readings = refl;
                  more = λ plan. ground (arith, grown plan);
                },
                λ _. ground (arith, grown k, none_yet, (==_iff k k).1 refl),
              )
      ]

  generate_one-Turn :
      (k : ℕ) (p : MaintenancePlan) (db : Db)
      → AtMostOne db
      → Turn k p db (generate_one plant year date k p db)
  unfolding generate_one
  generate_one-Turn k p db h =
      elim (Bool-cases (is_wanted plant date p db && not (has_open_order k db.orders))) [
        | inl t ↦ rw t (generate_new-Turn k p db (ground (arith, t)) h)
        | inr n ↦ rw n (
          h,
          Grew-refl db,
          λ w. ground (
            arith,
            n,
            w,
            has_open_order-open_orders k db.orders,
            ==_iff (open_orders k db.orders) 0,
            h k,
          ),
        )
      ]

  -- What generating has done for the plans `rows`.
  abbrev Generates : Table ℕ MaintenancePlan → Db → Result Error (Unit {0}) × Db → Type 0
  Generates rows db (err x, db') = x ≡ number_taken
  Generates rows db (ok u, db') =
      AtMostOne db'
      × Grew db db'
      × ((i k : ℕ) (p : MaintenancePlan)
          → get_elem? rows i ≡ some (k, p)
          → is_wanted plant date p db ≡ true
          → open_orders k db'.orders ≡ 1)

  after-Turn :
      (k : ℕ) (p : MaintenancePlan) (rows : Table ℕ MaintenancePlan) (db : Db)
      → ((t : Db) → AtMostOne t → Generates rows t (generate_for plant year date rows t))
      → (r : Result Error (Unit {0}) × Db) → Turn k p db r
      → let after : Result Error (Unit {0}) × Db = elim r.0 [
        | ok u ↦ generate_for plant year date rows r.1
        | err x ↦ (err x, r.1)
      ] in
        Generates ((k, p) ∷ rows) db after
  after-Turn k p rows db rest (err x, t) q = q
  after-Turn k p rows db rest (ok u, t) (one, grew, here) =
      join (generate_for plant year date rows t) (rest t one)
    where
      each :
          {d : Db}
          → Grew t d
          → AtMostOne d
          → ((i j : ℕ) (q : MaintenancePlan)
              → get_elem? rows i ≡ some (j, q)
              → is_wanted plant date q t ≡ true
              → open_orders j d.orders ≡ 1)
          → (i j : ℕ) (q : MaintenancePlan) → get_elem? ((k, p) ∷ rows) i ≡ some (j, q)
          → is_wanted plant date q db ≡ true
          → open_orders j d.orders ≡ 1
      each grew' one' there zero j q e w =
          let same : Path (ℕ × MaintenancePlan) (k, p) (j, q) = some-injective (k, p) (j, q) e in
          let wanted =
            subst (λ (x : ℕ × MaintenancePlan). is_wanted plant date x.1 db ≡ true) (sym same) w in
          let count =
            subst (λ (x : ℕ × MaintenancePlan). open_orders x.0 t.orders ≡ 1) same (here wanted) in
          omega (arith, count, grew'.more j, one' j)
      each grew' one' there (suc i) j q e w =
          there i j q e (is_wanted-Grew plant date q db t grew ∙ w)

      join :
          (r : Result Error (Unit {0}) × Db) → Generates rows t r → Generates ((k, p) ∷ rows) db r
      join (err x, d) q = q
      join (ok v, d) (one', grew', there) =
          (one', Grew-trans db t d grew grew', each grew' one' there)

  generate_for-Generates :
      (rows : Table ℕ MaintenancePlan) (db : Db)
      → AtMostOne db
      → Generates rows db (generate_for plant year date rows db)
  unfolding generate_for
  generate_for-Generates [] db h = (h, Grew-refl db, λ i k p e w. cc e)
  generate_for-Generates ((k, p) ∷ rows) db h =
      after-Turn k p rows db (generate_for-Generates rows) (generate_one plant year date k p db)
        (generate_one-Turn k p db h)

  -- What a call has done: refused, it was for a number that is taken, and changed nothing;
  -- accepted, it leaves each plan at most one open order, and exactly one to each wanted plan.
  abbrev pub Generated : Db → Result Error (Unit {0}) × Db → Type 0
  Generated db (err x, db') = (x ≡ number_taken) × (db' ≡ db)
  Generated db (ok u, db') =
      AtMostOne db'
      × ((i k : ℕ) (p : MaintenancePlan)
          → get_elem? db.plans i ≡ some (k, p)
          → is_wanted plant date p db ≡ true
          → open_orders k db'.orders ≡ 1)

  -- From tables in which each plan has at most one open order: a refused call has changed nothing,
  -- and was refused for a number that is taken; an accepted one leaves each plan at
  -- most one open order, and exactly one to each active plan of an active asset of the plant that is
  -- due at the date.
  pub generate_preventive_orders-Generated :
      (db : Db) → AtMostOne db → Generated db (generate_preventive_orders plant year date db)
  unfolding generate_preventive_orders generate_all
  generate_preventive_orders-Generated db h =
      by_result (generate_for plant year date db.plans db) (generate_for-Generates db.plans db h)
    where
      by_result :
          (r : Result Error (Unit {0}) × Db)
          → Generates db.plans db r
          → Generated db (roll_back db r)
      by_result (err x, d) q = (q, refl)
      by_result (ok u, d) q = (q.0, q.2)
