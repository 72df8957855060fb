-- ===== src/Maintenance/Preventive.antt =====
-- `generate_preventive_orders`, `plan_is_due`, `report_failure` and `_next_order_number` of
-- apps/maintenance/services.py. `year` is that of the local date. A sequence has at most five digits,
-- so that the numbers order as their texts. The plans are the rows in the order of the query; of an
-- order the schedule, the priority and the texts are left out.
use mrp_django.Common.{show}
use mrp_django.Inventory.Model.{type_eq}
use mrp_django.Maintenance.Completion.{latest_meter}
use mrp_django.Maintenance.Model.{
  Act, Db, MaintenanceAsset, MaintenancePlan, MaintenanceWorkOrder, OrderType, Status, Strategy,
  add_event, asset_at, calendar, corrective, hybrid, in_progress, meter, number_taken, planned,
  preventive, released, symptom_missing, waiting_parts,
}
use mrp_django.Prelude.{
  Bool, List, Option, Table, Text, [], atomic, codes, false, get, if◌then◌else◌, leb, leb_ℤ, length,
  lookup, ltb, modify, nat_eq, none, not, option_eq, pair_eq, pure, raise_if, some, text_eq, true,
  ℕ, ℤ, ◌&&◌, ◌++◌, ◌+◌, ◌==◌, ◌>>=◌, ◌>>◌, ◌||◌, ◌∷◌,
}

-- The last sequence of the plant's orders with the prefix of the year.
unfoldable pub last_sequence : ℕ → ℕ → List MaintenanceWorkOrder → ℕ
last_sequence plant year [] = 0
last_sequence plant year (wo ∷ orders) =
    let rest = last_sequence plant year orders in
    if wo.plant == plant && wo.number.0 == year
    then (if ltb rest wo.number.1 then wo.number.1 else rest)
    else rest

unfoldable pub next_order_number : ℕ → ℕ → List MaintenanceWorkOrder → ℕ × ℕ
next_order_number plant year orders = (year, last_sequence plant year orders + 1)

-- `number` is unique in the table.
unfoldable pub has_number : ℕ × ℕ → List MaintenanceWorkOrder → Bool
has_number n [] = false
has_number n (wo ∷ orders) = wo.number == n || has_number n orders

abbrev pub is_open_status : Status → Bool
is_open_status planned = true
is_open_status released = true
is_open_status in_progress = true
is_open_status waiting_parts = true
is_open_status _ = false

unfoldable pub is_open_for : ℕ → MaintenanceWorkOrder → Bool
is_open_for plan wo = wo.plan == some plan && is_open_status wo.status

-- `open_existing`
unfoldable pub has_open_order : ℕ → List MaintenanceWorkOrder → Bool
has_open_order plan [] = false
has_open_order plan (wo ∷ orders) = is_open_for plan wo || has_open_order plan orders

abbrev pub is_reached : Option ℕ → ℕ → Bool
is_reached none date = false
is_reached (some due) date = leb due date

abbrev pub meter_reached : Option ℤ → ℤ → Bool
meter_reached none value = false
meter_reached (some due) value = leb_ℤ due value

abbrev pub by_strategy : Strategy → Bool → Bool → Bool
by_strategy calendar date value = date
by_strategy meter date value = value
by_strategy hybrid date value = date || value

unfoldable pub plan_is_due : MaintenancePlan → ℕ → Db → Bool
plan_is_due p date db =
    by_strategy p.strategy (is_reached p.next_due_date date)
      (meter_reached p.next_due_meter (latest_meter p.asset db))

abbrev pub asset_matches : ℕ → Option MaintenanceAsset → Bool
asset_matches plant none = false
asset_matches plant (some a) = a.plant == plant && a.is_active

-- The plans that the query gives and that are due.
unfoldable pub is_wanted : ℕ → ℕ → MaintenancePlan → Db → Bool
is_wanted plant date p db =
    asset_matches plant (lookup p.asset db.assets) && p.is_active && plan_is_due p date db

unfoldable pub new_order : ℕ → ℕ × ℕ → ℕ → Option ℕ → OrderType → Status → MaintenanceWorkOrder
new_order plant number asset plan order_type status = record {
  plant = plant;
  number = number;
  asset = asset;
  plan = plan;
  order_type = order_type;
  status = status;
  started_at = none;
  completed_at = none;
  downtime_event = none;
  completion_notes = [];
  meter_at_completion = none;
}

unfoldable pub append_order : MaintenanceWorkOrder → Db → Db
append_order wo db = record db { orders = db.orders ++ wo ∷ [] }

-- `MaintenanceWorkOrder.objects.create`
unfoldable pub create_order : MaintenanceWorkOrder → Act (Unit {0})
create_order wo = do
  db ← get
  raise_if (has_number wo.number db.orders) number_taken
  modify (append_order wo)

unfoldable pub preventive_order : ℕ → ℕ → ℕ → MaintenancePlan → Db → MaintenanceWorkOrder
preventive_order plant year k p db =
    new_order plant (next_order_number plant year db.orders) p.asset (some k) preventive planned

unfoldable pub generate_new : ℕ → ℕ → ℕ → MaintenancePlan → Act (Unit {0})
generate_new plant year k p = do
  db ← get
  create_order (preventive_order plant year k p db)
  modify (
      add_event (codes "maint-generated:" ++ show (length db.orders)) "MAINTENANCE_ORDER_GENERATED"
        "MaintenanceWorkOrder" (length db.orders))

-- The turn of one plan.
unfoldable pub generate_one : ℕ → ℕ → ℕ → ℕ → MaintenancePlan → Act (Unit {0})
generate_one plant year date k p db =
    if is_wanted plant date p db && not (has_open_order k db.orders)
    then generate_new plant year k p db
    else pure tt db

unfoldable pub generate_for : ℕ → ℕ → ℕ → Table ℕ MaintenancePlan → Act (Unit {0})
generate_for plant year date [] = pure tt
generate_for plant year date ((k, p) ∷ plans) =
    generate_one plant year date k p >> generate_for plant year date plans

unfoldable pub generate_all : ℕ → ℕ → ℕ → Act (Unit {0})
generate_all plant year date = do db ← get; generate_for plant year date db.plans

unfoldable pub generate_preventive_orders : ℕ → ℕ → ℕ → Act (Unit {0})
generate_preventive_orders plant year date = atomic (generate_all plant year date)

-- `(symptom or "").strip()` is empty: only code points that Python takes for white space.
abbrev pub is_space : ℕ → Bool
is_space c =
    (leb 9 c && leb c 13)
    || (leb 28 c && leb c 32)
    || c == 0x85
    || c == 0xA0
    || c == 0x1680
    || (leb 0x2000 c && leb c 0x200A)
    || c == 0x2028
    || c == 0x2029
    || c == 0x202F
    || c == 0x205F
    || c == 0x3000

abbrev pub is_blank_text : Text → Bool
is_blank_text [] = true
is_blank_text (c ∷ t) = is_space c && is_blank_text t

unfoldable pub write_failure : ℕ → Text → ℕ → Db → Db
write_failure asset symptom wo db =
    add_event (codes "maint-failure:" ++ show (length db.failures)) "MAINTENANCE_FAILURE_REPORTED"
      "MaintenanceAsset" asset
      (record db {
        failures =
            db.failures
            ++ record {
              asset = asset;
              work_order = some wo;
              downtime_event = none;
              symptom = symptom;
              resolved_at = none;
              corrective_action = [];
            }
              ∷ [];
      })

unfoldable pub corrective_order : ℕ → ℕ → ℕ → Db → MaintenanceWorkOrder
corrective_order plant year asset db =
    new_order plant (next_order_number plant year db.orders) asset none corrective released

unfoldable pub report_on : ℕ → Text → ℕ → MaintenanceAsset → Act (Unit {0})
report_on asset symptom year a = do
  db ← get
  create_order (corrective_order a.plant year asset db)
  modify (write_failure asset symptom (length db.orders))

unfoldable pub report_failure : ℕ → Text → ℕ → Act (Unit {0})
report_failure asset symptom year = atomic (do
  raise_if (is_blank_text symptom) symptom_missing
  a ← asset_at asset
  report_on asset symptom year a)
