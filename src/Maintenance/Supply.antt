-- ===== src/Maintenance/Supply.antt =====
-- An order whose parts are reserved can be released.
use mathlib.Core.Path.{subst}
use mrp_django.Inventory.Balances.{allocated_of, on_hand_of}
use mrp_django.Inventory.Effect.{AllCovered}
use mrp_django.Inventory.Model.{Balance, Db, available, type_eq}
use mrp_django.Maintenance.Backing.{Backed}
use mrp_django.Maintenance.Cycle.{get_elem?-set-some}
use mrp_django.Maintenance.Fulfilment.{LinksInRange}
use mrp_django.Maintenance.Model.{MaintenanceWorkOrder, released}
use mrp_django.Maintenance.Parts.{
  MaintenancePart, Stores, StoresError, missing_of, reserve_maintenance_parts, stock_places,
}
use mrp_django.Maintenance.Release.{
  Yard, YardAct, YardError, all_available, all_from, effective_available, find_order, free_of,
  globally_free, is_planned, is_sufficient, let_go, order_missing, order_not_planned, release_found,
  release_work_order, save_status, wait_for_parts,
}
use mrp_django.Maintenance.Reserved.{Reserves, reserve_maintenance_parts-Reserves}
use mrp_django.Prelude.{
  >>=-run, Bool, Bool-cases, List, Option, Result, Text, [], ap, arith, atomic-run, err, false,
  get_elem?, if◌then◌else◌, inl, inr, int_laws, lookup, modify, nat_eq, none, not, ok, option_eq,
  or_raise-run, pair_eq, pos, raise_if, raise_if-run, refl, some, suc, sym, text_eq, true, ℕ, ◌&&◌,
  ◌+◌, ◌==◌, ◌>>=◌, ◌∙◌, ◌∷◌, ◌≡◌, ◌≤ℤ◌,
}

free_of_nonneg : (o : Option Balance) → allocated_of o ≤ℤ on_hand_of o → pos 0 ≤ℤ free_of o
unfolding available
free_of_nonneg none h = omega arith
free_of_nonneg (some b) h = grind (int_laws, h)

globally_free_nonneg :
    (item : ℕ) (ls : List ℕ) (d : Db) → AllCovered d → pos 0 ≤ℤ globally_free item ls d.balances
unfolding globally_free
globally_free_nonneg item [] d h = omega arith
globally_free_nonneg item (l ∷ ls) d h =
    let here = free_of_nonneg (lookup (item, l) d.balances) (h item l) in
    omega (int_laws, here, globally_free_nonneg item ls d h)

is_sufficient_lem :
    (k : ℕ) (p : MaintenancePart) (plant : ℕ) (s : Stores)
    → Backed s
    → missing_of k p s ≤ℤ pos 0
    → is_sufficient k p plant s ≡ true
unfolding is_sufficient missing_of effective_available
is_sufficient_lem k p plant s h m =
    let free =
      globally_free_nonneg p.item (stock_places p.item plant s.plants s.stock.balances) s.stock
        h.covered in
    grind (int_laws, free, m)

all_from_lem :
    (wo plant k : ℕ) (ps : List MaintenancePart) (s : Stores)
    → Backed s
    → ((i : ℕ) (p : MaintenancePart)
        → get_elem? ps i ≡ some p
        → p.work_order == wo ≡ true
        → missing_of (k + i) p s ≤ℤ pos 0)
    → all_from wo plant k ps s ≡ true
unfolding all_from
all_from_lem wo plant k [] s h each = refl
all_from_lem wo plant k (p ∷ ps) s h each =
    let rest : all_from wo plant (suc k) ps s ≡ true =
      all_from_lem wo plant (suc k) ps s h (λ i q e w.
        let place : k + suc i ≡ suc k + i = omega arith in
        subst (λ j. missing_of j q s ≤ℤ pos 0) place (each (suc i) q e w)) in
    elim (Bool-cases (p.work_order == wo)) [
      | inl t ↦
          let place : k + 0 ≡ k = omega arith in
          let here =
            is_sufficient_lem k p plant s h
              (subst (λ j. missing_of j p s ≤ℤ pos 0) place (each 0 p refl t)) in
          ground (arith, t, here, rest)
      | inr n ↦ ground (arith, n, rest)
    ]

-- A release that succeeds and leaves the order released.
abbrev pub Releases : ℕ → MaintenanceWorkOrder → Result YardError (Unit {0}) × Yard → Type 0
Releases wo o r = (r.0 ≡ ok tt) × (get_elem? r.1.orders wo ≡ some (record o { status = released }))

release_work_order-Releases :
    (wo : ℕ) (require_parts : Bool) (stamp : Text) (o : MaintenanceWorkOrder) (y : Yard)
    → get_elem? y.orders wo ≡ some o
    → is_planned o.status ≡ true
    → all_available wo o.plant y.stores ≡ true
    → Releases wo o (release_work_order wo require_parts stamp y)
unfolding release_work_order find_order release_found let_go save_status
release_work_order-Releases wo require_parts stamp o y at plan enough =
    let missing : Yard → Bool = λ z. require_parts && not (all_available wo o.plant z.stores) in
    let write : Bool → Yard → Yard = λ b. if b then wait_for_parts wo stamp o else let_go wo o in
    let tail : YardAct (Unit {0}) = λ z. modify (write (missing z)) z in
    let none_missing : missing y ≡ false = ground (arith, enough) in
    let gone : release_work_order wo require_parts stamp y ≡ (ok tt, let_go wo o y) =
      atomic-run (find_order wo >>= release_found wo require_parts stamp) y (
        >>=-run (find_order wo) (release_found wo require_parts stamp) y
          (or_raise-run (get_elem? y.orders wo) order_missing y at)
        ∙ >>=-run (raise_if (not (is_planned o.status)) order_not_planned) (λ _. tail) y
            (raise_if-run (not (is_planned o.status)) order_not_planned y (ap not plan))
        ∙ ap (λ b. (ok tt, write b y)) none_missing) in
    subst (Releases wo o) (sym gone) (refl, get_elem?-set-some y.orders wo _ at)

-- What a reservation of the parts of the order `wo` does in a yard, by how it ended: refused, it
-- changes nothing; accepted, it keeps what is reserved backed, leaves nothing missing for a part of
-- the order, and the order can be released at once, with its parts required or not.
abbrev pub Supplies :
    ℕ → MaintenanceWorkOrder → Yard → Result StoresError (Unit {0}) × Stores → Type 0
Supplies wo o y (err x, s') = s' ≡ y.stores
Supplies wo o y (ok u, s') =
    Backed s'
    × ((k : ℕ) (p : MaintenancePart)
        → get_elem? y.stores.parts k ≡ some p
        → p.work_order == wo ≡ true
        → missing_of k p s' ≤ℤ pos 0)
    × ((require_parts : Bool) (stamp : Text)
        → Releases wo o (release_work_order wo require_parts stamp (record y { stores = s' })))

-- For an order that is planned, when each link is to a row of the reservations, no reservation is
-- consumed beyond its quantity, what the open ones hold of an item at a location is within what is
-- allocated there, and that within what is on hand: a refused reservation of the order's parts
-- changes nothing; an accepted one keeps these bounds and leaves, for each part of the order, nothing
-- that is needed and not reserved, so that the order can be released at once, with its parts
-- required or not.
pub reserve_maintenance_parts-Supplies :
    (wo : ℕ) (stamp : Text) (o : MaintenanceWorkOrder) (y : Yard)
    → get_elem? y.orders wo ≡ some o
    → is_planned o.status ≡ true
    → LinksInRange y.stores.links y.stores.reservations
    → Backed y.stores
    → Supplies wo o y (reserve_maintenance_parts wo o.plant stamp y.stores)
unfolding all_available
reserve_maintenance_parts-Supplies wo stamp o y at plan links h =
    by_result (reserve_maintenance_parts wo o.plant stamp y.stores)
      (reserve_maintenance_parts-Reserves wo o.plant stamp y.stores links h)
  where
    by_result :
        (r : Result StoresError (Unit {0}) × Stores) → Reserves wo y.stores r → Supplies wo o y r
    by_result (err x, s') same = same
    by_result (ok u, s') (backed, each, rows) =
        let of_each : (i : ℕ) (p : MaintenancePart)
            → get_elem? s'.parts i ≡ some p
            → p.work_order == wo ≡ true
            → missing_of (0 + i) p s' ≤ℤ pos 0 =
          λ i p e w.
            let place : i ≡ 0 + i = omega arith in
            subst (λ j. missing_of j p s' ≤ℤ pos 0) place
              (each i p (ap (λ ps. get_elem? ps i) (sym rows) ∙ e) w) in
        let enough = all_from_lem wo o.plant 0 s'.parts s' backed of_each in
        (
          backed,
          each,
          λ require_parts at_time.
              release_work_order-Releases wo require_parts at_time o (record y { stores = s' }) at
                plan enough,
        )
