-- ===== src/Recall/Tests.antt =====
-- The theorems on a concrete recall of one serial and its lot.
use mrp_django.Inventory.Model.{type_eq}
use mrp_django.Prelude.{[], arith, false, lookup, nat_eq, option_eq, pair_eq, some, text_eq, ◌∷◌}
use mrp_django.Recall.Completion.{
  IsSound, approve, complete, execute, is_completed, recall, recall-IsSound,
}
use mrp_django.Recall.Execution.{Executes, execute_recall-Executes}
use mrp_django.Recall.Service.{
  AffectedUnit, Db, execute_recall, has_undecided, investigating, pending,
}
use mrp_django.Traceability.Lots.Service.{available}
use mrp_django.Traceability.Serials.Service.{shipped}

abbrev unit : AffectedUnit
unit = record {
  recall_case = 1;
  serial = some 6;
  lot = some 5;
  is_blocked = false;
  disposition = pending;
}

abbrev scene : Db
scene = record {
  cases = (1, investigating) ∷ [];
  affected_units = unit ∷ [];
  serials = (6, shipped) ∷ (7, shipped) ∷ [];
  lots = (5, available) ∷ [];
  events = [];
}

execute_recall-Executes_example : Executes 1 scene (execute_recall 1 scene)
execute_recall-Executes_example = execute_recall-Executes 1 scene

scene-IsSound : IsSound scene
unfolding IsSound is_completed lookup has_undecided
scene-IsSound pk = ground arith

recall-IsSound_example : IsSound (recall (approve 1 ∷ execute 1 ∷ complete 1 ∷ []) scene)
recall-IsSound_example =
    recall-IsSound (approve 1 ∷ execute 1 ∷ complete 1 ∷ []) scene scene-IsSound
