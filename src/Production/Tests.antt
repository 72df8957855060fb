-- ===== src/Production/Tests.antt =====
-- The theorems on operations at a concrete work order.
use mrp_django.Inventory.Model.{type_eq}
use mrp_django.Prelude.{
  List, [], arith, codes, false, lookup, nat_eq, option_eq, pair_eq, pos, text_eq, ◌∷◌,
}
use mrp_django.Production.Advance.{Advances, advance_work_order_operation-Advances}
use mrp_django.Production.Operations.{
  Db, ProductionReport, WorkOrderOperation, advance_work_order_operation, pending, released,
}
use mrp_django.Production.Sound.{Call, IsSound, advance, produce, produce-IsSound, report}

abbrev cutting : WorkOrderOperation
cutting = record {
  work_order = 4;
  sequence = 10;
  status = pending;
  has_actual_start = false;
  has_actual_end = false;
}

abbrev plant : Db
plant = record {
  statuses = (4, released) ∷ [];
  operations = (1, cutting) ∷ (2, record cutting { sequence = 20 }) ∷ [];
  reports = [];
  events = [];
}

abbrev eight : ProductionReport
eight = record {
  work_order = 4;
  operation = 1;
  good_quantity = pos 80000;
  scrap_quantity = pos 0;
  labor_hours = pos 15000;
  machine_hours = pos 0;
}

abbrev calls : List Call
calls =
    advance 1 (codes "SETUP") (codes "t0")
    ∷ advance 1 (codes "RUN") (codes "t1")
    ∷ report 1 eight 1
    ∷ advance 2 (codes "RUN") (codes "t2")
    ∷ []

plant-IsSound : IsSound plant
unfolding IsSound lookup
plant-IsSound pk o at = ground arith

produce-IsSound_example : IsSound (produce calls plant)
produce-IsSound_example = produce-IsSound calls plant plant-IsSound

advance_work_order_operation-Advances_example :
    Advances 1
      (codes "SETUP")
      plant
      (advance_work_order_operation 1 (codes "SETUP") (codes "t0") plant)
advance_work_order_operation-Advances_example =
    advance_work_order_operation-Advances 1 (codes "SETUP") (codes "t0") plant
