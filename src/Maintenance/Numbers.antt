-- ===== src/Maintenance/Numbers.antt =====
-- The numbers of orders: counted in each plant, unique among all of them.
use mrp_django.Inventory.Model.{type_eq}
use mrp_django.Maintenance.Model.{
  Db, MaintenanceAsset, MaintenanceWorkOrder, asset_at, number_taken,
}
use mrp_django.Maintenance.Preventive.{
  corrective_order, create_order, has_number, is_blank_text, last_sequence, new_order,
  next_order_number, report_failure, report_on,
}
use mrp_django.Prelude.{
  Bool, List, Text, [], arith, err, false, lookup, nat_eq, not, option_eq, pair_eq, refl, some,
  text_eq, true, ℕ, ◌&&◌, ◌+◌, ◌==◌, ◌||◌, ◌↔◌, ◌∷◌, ◌≡◌, ◌≤◌,
}
use native.Mathlib.Nat.{le_refl}

-- Has an order of another plant the number?
unfoldable pub taken_elsewhere : ℕ → ℕ × ℕ → List MaintenanceWorkOrder → Bool
taken_elsewhere plant n [] = false
taken_elsewhere plant n (wo ∷ orders) =
    (wo.number == n && not (wo.plant == plant)) || taken_elsewhere plant n orders

has_number-taken_elsewhere :
    (plant year m : ℕ) (orders : List MaintenanceWorkOrder)
    → last_sequence plant year orders ≤ m
    → has_number (year, m + 1) orders ≡ taken_elsewhere plant (year, m + 1) orders
unfolding has_number taken_elsewhere last_sequence
has_number-taken_elsewhere plant year m [] h = refl
has_number-taken_elsewhere plant year m (wo ∷ orders) h =
    ground (arith, h, has_number-taken_elsewhere plant year m orders)

-- A failure with a symptom, on an asset that exists, is refused exactly when an order of another
-- plant has the number that is next in the asset's plant; the refusal names the number.
pub report_failure-taken_elsewhere :
    (asset : ℕ) (symptom : Text) (year : ℕ) (a : MaintenanceAsset) (db : Db)
    → is_blank_text symptom ≡ false
    → lookup asset db.assets ≡ some a
    → ((report_failure asset symptom year db).0 ≡ err number_taken)
      ↔ (taken_elsewhere a.plant (next_order_number a.plant year db.orders) db.orders ≡ true)
unfolding report_failure asset_at report_on corrective_order create_order next_order_number
    new_order
report_failure-taken_elsewhere asset symptom year a db full found =
    let last = last_sequence a.plant year db.orders in
    let same = has_number-taken_elsewhere a.plant year last db.orders (le_refl last) in
    ground (arith, full, found, same)
