-- ===== src/Maintenance/Stops.antt =====
-- The stops of the machines under the calls of the shop floor and of maintenance.
use mathlib.Core.Path.{subst}
use mrp_django.Inventory.Model.{type_eq}
use mrp_django.Maintenance.Completion.{
  add_reading, complete_found, complete_work_order, completed_order, create_reading, end_at,
  end_stop, ended, ends_early, finish_order, free_machine, is_below_zero, is_in_progress,
  latest_meter, next_due, or_latest, renew_plan, save_completed, save_plan,
}
use mrp_django.Maintenance.Model.{
  Act, Db, MaintenanceAsset, MaintenanceWorkOrder, add_event, asset_at, integrity_error,
  machine_already_stopped, missing_row, not_in_progress, not_startable, on_floor, order_at,
  save_order,
}
use mrp_django.Maintenance.Orders.{
  can_start, floor_machine_at, maintenance_reason, open_stop, save_started, start_event,
  start_found, start_on, start_on_machine, start_work_order,
}
use mrp_django.Prelude.{
  ==_iff, >>=-Preserves, List, Option, Preserves, Text, [], arith, atomic-Preserves, get_elem?,
  guarded_step, length, lookup, modify, nat_eq, none, not, option_eq, or_raise, or_raise-Preserves,
  pair_eq, raise_if, refl, some, suc, sym, text_eq, zero, ℕ, ℤ, ◌>>=◌, ◌>>◌, ◌∷◌, ◌≡◌, ◌≤◌,
}
use mrp_django.Shopfloor.Machines.{
  DowntimeEvent, Machine, create_downtime, event_on, has_open, is_open_on, machine_idle,
  machine_operation_action, save_machine, start_downtime, with_status,
}
use mrp_django.Shopfloor.Stops.{
  OneStop, create-OneStop, machine_operation_action-Preserves, open_count, start_downtime-Preserves,
}

abbrev StopsFine : Db → Type 0
StopsFine db = OneStop db.floor.downtimes

open_count-end_at :
    (k now i : ℕ) (ds : List DowntimeEvent) → open_count k (end_at now i ds) ≤ open_count k ds
unfolding open_count end_at ended is_open_on
open_count-end_at k now i [] = omega arith
open_count-end_at k now zero (d ∷ ds) = ground (arith, ==_iff d.ended_at none)
open_count-end_at k now (suc i) (d ∷ ds) = ground (arith, open_count-end_at k now i ds)

end_at-OneStop : (now i : ℕ) (ds : List DowntimeEvent) → OneStop ds → OneStop (end_at now i ds)
unfolding OneStop
end_at-OneStop now i ds one k = omega (arith, open_count-end_at k now i ds, one k)

asset_at-Preserves : (k : ℕ) → Preserves StopsFine (asset_at k)
unfolding asset_at
asset_at-Preserves k db = or_raise-Preserves StopsFine (lookup k db.assets) missing_row db

order_at-Preserves : (k : ℕ) → Preserves StopsFine (order_at k)
unfolding order_at
order_at-Preserves k db = or_raise-Preserves StopsFine (get_elem? db.orders k) missing_row db

end_stop-Preserves : (o : Option ℕ) (now : ℕ) → Preserves StopsFine (end_stop o now)
unfolding end_stop on_floor
end_stop-Preserves none now = λ db h. h
end_stop-Preserves (some i) now = λ db h.
    >>=-Preserves StopsFine (or_raise (get_elem? db.floor.downtimes i) missing_row)
      (λ d.
        raise_if (ends_early now d) integrity_error
        >> modify (on_floor (λ f. record f { downtimes = end_at now i f.downtimes })))
      (or_raise-Preserves StopsFine (get_elem? db.floor.downtimes i) missing_row)
      (λ d t q.
        guarded_step StopsFine (ends_early now d) integrity_error
          (modify (on_floor (λ f. record f { downtimes = end_at now i f.downtimes }))) t q
          (λ _. end_at-OneStop now i t.floor.downtimes q))
      db h

create_reading-Preserves :
    (asset : ℕ) (value : Option ℤ) → Preserves StopsFine (create_reading asset value)
unfolding create_reading add_reading
create_reading-Preserves asset value db h =
    guarded_step StopsFine (is_below_zero value) integrity_error (modify (add_reading asset value))
      db h (λ _. h)

free_machine-Preserves : (o : Option ℕ) (now : ℕ) → Preserves StopsFine (free_machine o now)
unfolding free_machine on_floor save_machine
free_machine-Preserves none now = λ db h. h
free_machine-Preserves (some k) now = λ db h.
    >>=-Preserves StopsFine (or_raise (lookup k db.floor.machines) missing_row)
      (λ m. modify (on_floor (save_machine k (with_status machine_idle now m))))
      (or_raise-Preserves StopsFine (lookup k db.floor.machines) missing_row) (λ _ d q. q) db h

renew_plan-Preserves :
    (o : Option ℕ) (wo : MaintenanceWorkOrder) (today : ℕ)
    → Preserves StopsFine (renew_plan o wo today)
unfolding renew_plan save_plan
renew_plan-Preserves none wo today = λ db h. h
renew_plan-Preserves (some k) wo today = λ db h.
    let base = or_latest wo.meter_at_completion (latest_meter wo.asset db) in
    >>=-Preserves StopsFine (or_raise (lookup k db.plans) missing_row)
      (λ p. modify (save_plan k (next_due today base p)))
      (or_raise-Preserves StopsFine (lookup k db.plans) missing_row) (λ _ d q. q) db h

module _ (iso : ℕ → Text) where
  save_started-stops :
      (pk : ℕ) (wo : MaintenanceWorkOrder) (now : ℕ) (event : Option ℕ) (db : Db)
      → (save_started iso pk wo now event db).floor.downtimes ≡ db.floor.downtimes
  unfolding save_started start_event add_event on_floor event_on save_order
  save_started-stops pk wo now event db = refl

  start_on_machine-Preserves :
      (pk : ℕ) (wo : MaintenanceWorkOrder) (now k : ℕ) (m : Machine)
      → Preserves StopsFine (start_on_machine iso pk wo now k m)
  unfolding start_on_machine open_stop on_floor save_machine create_downtime maintenance_reason
  start_on_machine-Preserves pk wo now k m db h =
      let event = some (length db.floor.downtimes) in
      guarded_step StopsFine (has_open k db.floor.downtimes) machine_already_stopped
        (modify (open_stop pk wo now k m) >> modify (save_started iso pk wo now event)) db h
        (λ none_open.
          subst OneStop (sym (save_started-stops pk wo now event (open_stop pk wo now k m db)))
            (create-OneStop k db.floor.downtimes _ refl none_open h))

  start_on-Preserves :
      (pk : ℕ) (wo : MaintenanceWorkOrder) (now : ℕ) (o : Option ℕ)
      → Preserves StopsFine (start_on iso pk wo now o)
  unfolding start_on floor_machine_at
  start_on-Preserves pk wo now none =
      λ db h. subst OneStop (sym (save_started-stops pk wo now wo.downtime_event db)) h
  start_on-Preserves pk wo now (some k) =
      >>=-Preserves StopsFine (floor_machine_at k) (start_on_machine iso pk wo now k)
        (λ db. or_raise-Preserves StopsFine (lookup k db.floor.machines) missing_row db)
        (start_on_machine-Preserves pk wo now k)

  start_found-Preserves :
      (pk now : ℕ) (wo : MaintenanceWorkOrder) → Preserves StopsFine (start_found iso pk now wo)
  unfolding start_found
  start_found-Preserves pk now wo db h =
      let rest : MaintenanceAsset → Act (Unit {0}) = λ a. start_on iso pk wo now a.machine in
      guarded_step StopsFine (not (can_start wo.status)) not_startable (asset_at wo.asset >>= rest)
        db h
        (λ _.
          >>=-Preserves StopsFine (asset_at wo.asset) rest (asset_at-Preserves wo.asset)
            (λ a. start_on-Preserves pk wo now a.machine) db h)

  start_work_order-Preserves : (pk now : ℕ) → Preserves StopsFine (start_work_order iso pk now)
  unfolding start_work_order
  start_work_order-Preserves pk now =
      atomic-Preserves StopsFine (order_at pk >>= start_found iso pk now) (
        >>=-Preserves StopsFine (order_at pk) (start_found iso pk now) (order_at-Preserves pk)
          (start_found-Preserves pk now))

  finish_order-Preserves :
      (pk : ℕ) (notes : Text) (now today : ℕ) (wo : MaintenanceWorkOrder) (a : MaintenanceAsset)
      → Preserves StopsFine (finish_order iso pk notes now today wo a)
  unfolding finish_order save_completed add_event on_floor event_on save_order
  finish_order-Preserves pk notes now today wo a =
      let save : Act (Unit {0}) = modify (save_completed iso pk notes now wo) in
      >>=-Preserves StopsFine (free_machine a.machine now)
        (λ _. renew_plan wo.plan wo today >> save) (free_machine-Preserves a.machine now)
        (λ _.
          >>=-Preserves StopsFine (renew_plan wo.plan wo today) (λ _. save)
            (renew_plan-Preserves wo.plan wo today) (λ _ d q. q))

  complete_found-Preserves :
      (pk : ℕ) (notes : Text) (value : Option ℤ) (now today : ℕ) (wo : MaintenanceWorkOrder)
      → Preserves StopsFine (complete_found iso pk notes value now today wo)
  unfolding complete_found
  complete_found-Preserves pk notes value now today wo db h =
      let done = completed_order now notes value wo in
      let finish : MaintenanceAsset → Act (Unit {0}) = finish_order iso pk notes now today done in
      let free : Act (Unit {0}) = asset_at wo.asset >>= finish in
      guarded_step StopsFine (not (is_in_progress wo.status)) not_in_progress
        (create_reading wo.asset value >> (end_stop wo.downtime_event now >> free)) db h
        (λ _.
          >>=-Preserves StopsFine (create_reading wo.asset value)
            (λ _. end_stop wo.downtime_event now >> free) (create_reading-Preserves wo.asset value)
            (λ _.
              >>=-Preserves StopsFine (end_stop wo.downtime_event now) (λ _. free)
                (end_stop-Preserves wo.downtime_event now)
                (λ _.
                  >>=-Preserves StopsFine (asset_at wo.asset) finish (asset_at-Preserves wo.asset)
                    (finish_order-Preserves pk notes now today done)))
            db h)

  complete_work_order-Preserves :
      (pk : ℕ) (notes : Text) (value : Option ℤ) (now today : ℕ)
      → Preserves StopsFine (complete_work_order iso pk notes value now today)
  unfolding complete_work_order
  complete_work_order-Preserves pk notes value now today =
      let found = complete_found iso pk notes value now today in
      atomic-Preserves StopsFine (order_at pk >>= found) (
        >>=-Preserves StopsFine (order_at pk) found (order_at-Preserves pk)
          (complete_found-Preserves pk notes value now today))

-- The calls of the shop floor and of maintenance that open and close stops or move machines.
pub data Call : Type 0 where
  start_stop : ℕ → ℕ × Text → Text → ℕ → Text → Call
  act_on_machine : ℕ → ℕ → Text → ℕ → Text → Call
  start_order_call : ℕ → ℕ → Call
  complete_order_call : ℕ → Text → Option ℤ → ℕ → ℕ → Call

unfoldable pub run_call : (ℕ → Text) → Call → Db → Db
run_call iso (start_stop pk reason notes now stamp) db =
    on_floor (λ f. (start_downtime pk reason notes now stamp f).1) db
run_call iso (act_on_machine pk op action now stamp) db =
    on_floor (λ f. (machine_operation_action pk op action now stamp f).1) db
run_call iso (start_order_call pk now) db = (start_work_order iso pk now db).1
run_call iso (complete_order_call pk notes value now today) db =
    (complete_work_order iso pk notes value now today db).1

unfoldable pub run_calls : (ℕ → Text) → List Call → Db → Db
run_calls iso [] db = db
run_calls iso (c ∷ cs) db = run_calls iso cs (run_call iso c db)

run_call-OneStop :
    (iso : ℕ → Text) (c : Call) (db : Db) → StopsFine db → StopsFine (run_call iso c db)
unfolding run_call on_floor
run_call-OneStop iso (start_stop pk reason notes now stamp) db h =
    start_downtime-Preserves pk reason notes now stamp db.floor h
run_call-OneStop iso (act_on_machine pk op action now stamp) db h =
    machine_operation_action-Preserves pk op action now stamp db.floor h
run_call-OneStop iso (start_order_call pk now) db h = start_work_order-Preserves iso pk now db h
run_call-OneStop iso (complete_order_call pk notes value now today) db h =
    complete_work_order-Preserves iso pk notes value now today db h

-- After any sequence of calls of the shop floor and of maintenance, refused ones included, no
-- machine has two open stops, if none had two before.
pub run_calls-OneStop :
    (iso : ℕ → Text) (cs : List Call) (db : Db)
    → OneStop db.floor.downtimes
    → OneStop (run_calls iso cs db).floor.downtimes
unfolding run_calls
run_calls-OneStop iso [] db h = h
run_calls-OneStop iso (c ∷ cs) db h =
    run_calls-OneStop iso cs (run_call iso c db) (run_call-OneStop iso c db h)
