-- ===== src/Maintenance/Release.antt =====
-- `maintenance_part_availability` and `release_work_order` of apps/maintenance/services.py, on the
-- orders and the tables of Parts. `stamp` is the text of the time at which the order was last saved.
use Prim.Native.String.{String}
use mrp_django.Common.{append_domain_event, show}
use mrp_django.Inventory.Model.{Balance, available, type_eq}
use mrp_django.Maintenance.Model.{MaintenanceWorkOrder, Status, planned, released, waiting_parts}
use mrp_django.Maintenance.Parts.{MaintenancePart, Stores, already, part_rest, stock_places}
use mrp_django.Prelude.{
  Action, Bool, List, Option, Table, Text, [], atomic, codes, false, get, get_elem?, if◌then◌else◌,
  leb_ℤ, lookup, modify, nat_eq, none, not, option_eq, or_raise, pair_eq, pos, raise_if, set, some,
  suc, text_eq, true, ℕ, ℤ, ◌&&◌, ◌++◌, ◌+ℤ◌, ◌==◌, ◌>>=◌, ◌>>◌, ◌∷◌,
}

-- The orders beside the stores.
pub record Yard : Type 0 where
  pub stores : Stores
  pub orders : List MaintenanceWorkOrder

pub data YardError : Type 0 where
  order_missing order_not_planned : YardError

abbrev pub YardAct : Type 0 → Type 0
YardAct = Action YardError Yard

abbrev pub free_of : Option Balance → ℤ
free_of none = pos 0
free_of (some b) = available b

-- `Sum("on_hand")` less `Sum("allocated")` over the rows of the item at these locations.
unfoldable pub globally_free : ℕ → List ℕ → Table (ℕ × ℕ) Balance → ℤ
globally_free item [] rows = pos 0
globally_free item (l ∷ ls) rows = free_of (lookup (item, l) rows) +ℤ globally_free item ls rows

unfoldable pub effective_available : ℕ → MaintenancePart → ℕ → Stores → ℤ
effective_available k p plant s =
    globally_free p.item (stock_places p.item plant s.plants s.stock.balances) s.stock.balances
    +ℤ already k s.reservations s.links

unfoldable pub is_sufficient : ℕ → MaintenancePart → ℕ → Stores → Bool
is_sufficient k p plant s = leb_ℤ (part_rest p) (effective_available k p plant s)

-- `all_available`, of the parts from the id `k` on.
unfoldable pub all_from : ℕ → ℕ → ℕ → List MaintenancePart → Stores → Bool
all_from wo plant k [] s = true
all_from wo plant k (p ∷ ps) s =
    let rest = all_from wo plant (suc k) ps s in
    if p.work_order == wo then is_sufficient k p plant s && rest else rest

unfoldable pub all_available : ℕ → ℕ → Stores → Bool
all_available wo plant s = all_from wo plant 0 s.parts s

abbrev pub is_planned : Status → Bool
is_planned planned = true
is_planned _ = false

unfoldable pub order_event : Text → String → ℕ → Stores → Stores
order_event key event_type wo s = record s {
  events =
      (append_domain_event
        (record {
          idempotency_key = key;
          event_type = codes event_type;
          aggregate_type = codes "MaintenanceWorkOrder";
          aggregate_id = show wo;
        })
        s.events).1;
}

unfoldable pub save_status : ℕ → MaintenanceWorkOrder → Status → Yard → Yard
save_status wo o status y = record y { orders = set y.orders wo (record o { status = status }) }

unfoldable pub wait_for_parts : ℕ → Text → MaintenanceWorkOrder → Yard → Yard
wait_for_parts wo stamp o y =
    let saved = save_status wo o waiting_parts y in
    record saved {
      stores =
          order_event (codes "maint-waiting-parts:" ++ show wo ++ codes ":" ++ stamp)
            "MAINTENANCE_ORDER_WAITING_PARTS" wo saved.stores;
    }

unfoldable pub let_go : ℕ → MaintenanceWorkOrder → Yard → Yard
let_go wo o y =
    let saved = save_status wo o released y in
    record saved {
      stores =
          order_event (codes "maint-release:" ++ show wo) "MAINTENANCE_ORDER_RELEASED" wo
            saved.stores;
    }

unfoldable pub release_found : ℕ → Bool → Text → MaintenanceWorkOrder → YardAct (Unit {0})
release_found wo require_parts stamp o = do
  raise_if (not (is_planned o.status)) order_not_planned
  y ← get
  modify (
      if require_parts && not (all_available wo o.plant y.stores)
      then wait_for_parts wo stamp o
      else let_go wo o)

unfoldable pub find_order : ℕ → YardAct MaintenanceWorkOrder
find_order wo = do y ← get; or_raise (get_elem? y.orders wo) order_missing

unfoldable pub release_work_order : ℕ → Bool → Text → YardAct (Unit {0})
release_work_order wo require_parts stamp =
    atomic (find_order wo >>= release_found wo require_parts stamp)
