-- ===== src/Quality/Tests.antt =====
-- Runs of the quality services, and the theorems at a concrete order.
use mrp_django.Common.{show}
use mrp_django.Inventory.Model.{type_eq}
use mrp_django.Prelude.{
  Bool, List, [], codes, false, if◌then◌else◌, int_laws, lookup, nat_eq, none, option_eq, pair_eq,
  pos, refl, some, text_eq, true, ℕ, ◌==◌, ◌∷◌, ◌≡◌,
}
use mrp_django.Quality.Completion.{Completes, complete_inspection-Completes}
use mrp_django.Quality.Dispositions.{Disposes, apply_disposition-Disposes}
use mrp_django.Quality.Model.{
  Characteristic, Db, Disposition, InspectionOrder, numeric, order_open, use_as_is,
}
use mrp_django.Quality.Results.{Measures, record_result-Measures}
use mrp_django.Quality.Service.{
  apply_disposition, complete_inspection, disposed, ncr_number, pad, record_result, size,
}
use mrp_django.Quality.Sound.{Call, complete, dispose, inspect, inspect-IsSound, measure_one, start}
use mrp_django.Quality.Writes.{IsBalanced, IsSound}
use mrp_django.Traceability.Lots.Service.{quarantine}

abbrev diameter : Characteristic
diameter = record {
  pk = 3;
  plan = 1;
  data_type = numeric;
  lower_limit = some (pos 9900000);
  upper_limit = some (pos 10100000);
  is_mandatory = true;
}

abbrev arrived : InspectionOrder
arrived = record {
  plan = 1;
  lot = some 5;
  quantity_received = pos 100000;
  quantity_inspected = pos 0;
  quantity_approved = pos 0;
  quantity_rejected = pos 0;
  status = order_open;
}

abbrev dock : Db
dock = record {
  characteristics = diameter ∷ [];
  orders = (7, arrived) ∷ [];
  results = [];
  ncrs = [];
  dispositions = [];
  lots = (5, quarantine) ∷ [];
  events = [];
}

abbrev use_it : Disposition
use_it = record {
  nonconformance = codes "NC-20260102-000007";
  decision = use_as_is;
  quantity = pos 20000;
}

ncr_number_7 : ncr_number 7 (codes "20260102") ≡ codes "NC-20260102-000007"
unfolding ncr_number pad size show
ncr_number_7 = refl

dock-IsSound : IsSound dock
unfolding lookup disposed
dock-IsSound = record { orders = λ pk. by_key pk (7 == pk); ncrs = λ n. refl }
  where
    by_key : (pk : ℕ) (b : Bool) → IsBalanced (if b then some arrived else none)
    by_key pk true = (omega int_laws, omega int_laws, omega int_laws, omega int_laws)
    by_key pk false = tt

abbrev calls : List Call
calls =
    start 7 (codes "t0")
    ∷ measure_one 7 diameter 1 (some (pos 10000000)) none
    ∷ complete 7 (pos 80000) (pos 20000) (codes "20260102") (codes "t1")
    ∷ dispose use_it (codes "t2")
    ∷ []

inspect-IsSound_example : IsSound (inspect calls dock)
inspect-IsSound_example = inspect-IsSound calls dock dock-IsSound

record_result-Measures_example :
    Measures 7 diameter 1
      (some (pos 10000000))
      none
      dock
      (record_result 7 diameter 1 (some (pos 10000000)) none dock)
record_result-Measures_example = record_result-Measures 7 diameter 1 (some (pos 10000000)) none dock

complete_inspection-Completes_example :
    Completes 7
      (pos 80000)
      (pos 20000)
      (codes "20260102")
      dock
      (complete_inspection 7 (pos 80000) (pos 20000) (codes "20260102") (codes "t1") dock)
complete_inspection-Completes_example =
    complete_inspection-Completes 7 (pos 80000) (pos 20000) (codes "20260102") (codes "t1") dock

apply_disposition-Disposes_example :
    Disposes use_it dock (apply_disposition use_it (codes "t2") dock)
apply_disposition-Disposes_example = apply_disposition-Disposes use_it (codes "t2") dock
