-- ===== src/Maintenance/Tests.antt =====
-- The theorems on maintenance at a press with one order and one reserved part.
use mrp_django.Common.{show}
use mrp_django.Inventory.Model.{Location, type_eq}
use mrp_django.Maintenance.Backing.{Backed, held, open_at}
use mrp_django.Maintenance.Completion.{complete_work_order}
use mrp_django.Maintenance.Coverage.{
  AtMostOne, Generated, generate_preventive_orders-Generated, open_orders,
}
use mrp_django.Maintenance.Issued.{issue_maintenance_part-Backed}
use mrp_django.Maintenance.Issuing.{issue_maintenance_part}
use mrp_django.Maintenance.Lifecycle.{Serviced, start_complete-Serviced}
use mrp_django.Maintenance.Model.{
  Db, MaintenanceAsset, MaintenancePlan, MaintenanceWorkOrder, calendar, number_taken, planned,
  preventive, released,
}
use mrp_django.Maintenance.Numbers.{report_failure-taken_elsewhere, taken_elsewhere}
use mrp_django.Maintenance.Orders.{start_work_order}
use mrp_django.Maintenance.Parts.{
  MaintenancePart, Stores, reservation_open, reserve_maintenance_parts, rest_of,
}
use mrp_django.Maintenance.Preventive.{
  generate_preventive_orders, next_order_number, report_failure,
}
use mrp_django.Maintenance.Release.{Yard}
use mrp_django.Maintenance.Stops.{
  Call, complete_order_call, run_calls, run_calls-OneStop, start_order_call, start_stop,
}
use mrp_django.Maintenance.Supply.{Supplies, reserve_maintenance_parts-Supplies}
use mrp_django.Prelude.{
  List, Option, [], ap, arith, codes, err, lookup, nat_eq, none, option_eq, pair_eq, pos, refl,
  some, text_eq, true, ℕ, ◌+ℤ◌, ◌-ℤ◌, ◌↔◌, ◌∷◌, ◌≡◌,
}
use mrp_django.Production.Operations.{Db as ProductionDb}
use mrp_django.Shopfloor.Machines.{Machine, has_open, machine_idle}
use mrp_django.Shopfloor.Stops.{OneStop, open_count}

abbrev press : Machine
press = record {
  plant = 1;
  work_center = 3;
  status = machine_idle;
  current_operation = none;
  status_since = 0;
}

abbrev no_production : ProductionDb
no_production = record { statuses = []; operations = []; reports = []; events = [] }

abbrev asset : MaintenanceAsset
asset = record { plant = 1; machine = some 7; is_active = true }

abbrev monthly : MaintenancePlan
monthly = record {
  asset = 2;
  strategy = calendar;
  interval_days = 30;
  interval_meter = pos 0;
  next_due_date = some 100;
  next_due_meter = none;
  is_active = true;
}

abbrev order : MaintenanceWorkOrder
order = record {
  plant = 1;
  number = (2026, 1);
  asset = 2;
  plan = some 5;
  order_type = preventive;
  status = released;
  started_at = none;
  completed_at = none;
  downtime_event = none;
  completion_notes = [];
  meter_at_completion = none;
}

abbrev shop : Db
shop = record {
  floor = record {
    machines = (7, press) ∷ [];
    downtimes = [];
    reasons = [];
    work_centers = [];
    production = no_production;
  };
  assets = (2, asset) ∷ [];
  plans = (5, monthly) ∷ [];
  orders = order ∷ [];
  readings = [];
  failures = [];
}

start_complete-Serviced_example :
    let s = start_work_order show 0 8 shop in
    let c = complete_work_order show 0 (codes "oil") (some (pos 1250)) 9 101 s.1 in
    Serviced 0 9 7 (codes "oil") (some (pos 1250)) order s c
unfolding lookup has_open
start_complete-Serviced_example =
    start_complete-Serviced show 0 8 9 101 7 (codes "oil") (some (pos 1250)) order asset press shop
      refl refl refl refl refl refl refl (λ v e. ground arith) (omega arith)

abbrev shift : List Call
shift =
    start_order_call 0 8
    ∷ start_stop 7 (1, codes "JAM") [] 8 (codes "t8")
    ∷ complete_order_call 0 [] none 9 101
    ∷ start_stop 7 (1, codes "JAM") [] 10 (codes "t10")
    ∷ []

shop-OneStop : OneStop shop.floor.downtimes
unfolding OneStop open_count
shop-OneStop k = omega arith

run_calls-OneStop_example : OneStop (run_calls show shift shop).floor.downtimes
run_calls-OneStop_example = run_calls-OneStop show shift shop shop-OneStop

abbrev filter_part : MaintenancePart
filter_part = record {
  work_order = 0;
  number = codes "OM-2026-00001";
  plant = 1;
  item = 4;
  planned_quantity = pos 20000;
  issued_quantity = pos 0;
  source_location = none;
  issue_transaction = none;
}

abbrev stores : Stores
stores = record {
  stock = record {
    balances = ((4, 6), record { on_hand = pos 50000; allocated = pos 0 }) ∷ [];
    transactions = [];
  };
  plants = (6, 1) ∷ [];
  reservations = [];
  parts = filter_part ∷ [];
  links = [];
  events = [];
}

stores-Backed : Backed stores
unfolding open_at lookup
stores-Backed = record { rests = tt; backed = λ i l. ground arith; covered = λ i l. ground arith }

abbrev yard : Yard
yard = record { stores = stores; orders = record order { status = planned } ∷ [] }

reserve_maintenance_parts-Supplies_example :
    Supplies 0
      (record order { status = planned })
      yard
      (reserve_maintenance_parts 0 1 (codes "t1") stores)
reserve_maintenance_parts-Supplies_example =
    reserve_maintenance_parts-Supplies 0 (codes "t1") (record order { status = planned }) yard refl
      refl tt stores-Backed

abbrev with_reservation : Stores
with_reservation = record stores {
  stock = record {
    balances = ((4, 6), record { on_hand = pos 50000; allocated = pos 20000 }) ∷ [];
    transactions = [];
  };
  reservations =
      record {
        item = 4;
        location = 6;
        quantity = pos 20000;
        consumed_quantity = pos 0;
        status = reservation_open;
      }
      ∷ [];
  links = (0, 0) ∷ [];
}

with_reservation-Backed : Backed with_reservation
unfolding open_at held rest_of lookup ◌-ℤ◌ ◌+ℤ◌
with_reservation-Backed = record {
  rests = (omega arith, tt);
  backed = λ i l. ground arith;
  covered = λ i l. ground arith;
}

abbrev shelf : Location
shelf = record { pk = 6; plant = 1 }

issue_maintenance_part-Backed_example :
    Backed (issue_maintenance_part (λ _. 1) 0 shelf (pos 10000) (codes "k") with_reservation).1
issue_maintenance_part-Backed_example =
    issue_maintenance_part-Backed (λ _. 1) 0 shelf (pos 10000) (codes "k") with_reservation
      (λ p e. (λ _. ap (λ (o : Option MaintenancePart). item_of o) e, tt)) with_reservation-Backed
  where
    item_of : Option MaintenancePart → ℕ
    item_of none = 4
    item_of (some p) = p.item

abbrev due_shop : Db
due_shop = record shop { orders = []; plans = (5, monthly) ∷ (8, monthly) ∷ [] }

due_shop-AtMostOne : AtMostOne due_shop
unfolding open_orders
due_shop-AtMostOne plan = omega arith

generate_preventive_orders-Generated_example :
    Generated 1 2026 100 due_shop (generate_preventive_orders 1 2026 100 due_shop)
generate_preventive_orders-Generated_example =
    generate_preventive_orders-Generated 1 2026 100 due_shop due_shop-AtMostOne

-- Two plants, each with its first order of the year: the second one is refused.
abbrev two_plants_shop : Db
two_plants_shop = record shop { assets = (3, record asset { plant = 2 }) ∷ [] }

report_failure-taken_elsewhere_example :
    ((report_failure 3 (codes "leak") 2026 two_plants_shop).0 ≡ err number_taken) ↔ (
      taken_elsewhere 2 (next_order_number 2 2026 two_plants_shop.orders) two_plants_shop.orders
      ≡ true)
unfolding lookup
report_failure-taken_elsewhere_example =
    report_failure-taken_elsewhere 3 (codes "leak") 2026 (record asset { plant = 2 })
      two_plants_shop refl refl
