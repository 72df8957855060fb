-- ===== src/Maintenance/Lifecycle.antt =====
-- That an order of maintenance can be worked off, and how it leaves its machine.
use mathlib.Core.Path.{subst}
use mrp_django.Inventory.Model.{type_eq}
use mrp_django.Maintenance.Completion.{
  add_reading, complete_work_order, completed_order, end_at, ends_early, is_below_zero,
  save_completed,
}
use mrp_django.Maintenance.Cycle.{
  complete_work_order-run, finished, get_elem?-set-some, get_elem?-snoc, has_open-end_at,
  has_open-snoc, has_row, opened_and_started, start_work_order-run,
}
use mrp_django.Maintenance.Model.{
  Db, Error, MaintenanceAsset, MaintenancePlan, MaintenanceWorkOrder, add_event, completed,
  in_progress, on_floor, save_order,
}
use mrp_django.Maintenance.Orders.{
  can_start, machine_status_of, maintenance_reason, open_stop, or_now, save_started, start_event,
  start_work_order,
}
use mrp_django.Prelude.{
  ==_iff, Option, Result, Table, Text, [], ap, arith, false, get_elem?, length, lookup,
  lookup-insert_self, nat_eq, none, ok, option_eq, pair_eq, pos, refl, some, sym, text_eq, true, ℕ,
  ℤ, ◌++◌, ◌∙◌, ◌∷◌, ◌≡◌, ◌≤ℤ◌, ◌≤◌,
}
use mrp_django.Shopfloor.Machines.{
  DowntimeEvent, Machine, create_downtime, event_on, has_open, is_open_on, machine_idle,
  save_machine, with_status,
}

-- The order as its start stores it, with the id of the stop that is opened.
unfoldable pub started_order : ℕ → ℕ → MaintenanceWorkOrder → MaintenanceWorkOrder
started_order now stop wo = record wo {
  status = in_progress;
  started_at = some (or_now wo.started_at now);
  downtime_event = some stop;
}

-- The completed order.
pub record IsDone (later : ℕ) (notes : Text) (value : Option ℤ) (wo done : MaintenanceWorkOrder)
    : Type 0 where
  pub status : done.status ≡ completed
  pub completed_at : done.completed_at ≡ some later
  pub completion_notes : done.completion_notes ≡ notes
  pub meter : (v : ℤ) → value ≡ some v → done.meter_at_completion ≡ some v
  pub no_meter : value ≡ none → done.meter_at_completion ≡ wo.meter_at_completion
  pub asset : done.asset ≡ wo.asset
  pub plan : done.plan ≡ wo.plan

completed_order-IsDone :
    (now stop later : ℕ) (notes : Text) (value : Option ℤ) (wo : MaintenanceWorkOrder)
    → IsDone later notes value wo (completed_order later notes value (started_order now stop wo))
unfolding completed_order started_order
completed_order-IsDone now stop later notes value wo = record {
  status = refl;
  completed_at = refl;
  completion_notes = refl;
  meter = λ v e. ground (arith, e);
  no_meter = λ e. ground (arith, e);
  asset = refl;
  plan = refl;
}

-- The results `s` of a start and `c` of the completion that follows it at `later`.
pub record Serviced (pk later k : ℕ) (notes : Text) (value : Option ℤ) (wo : MaintenanceWorkOrder)
    (s c : Result Error (Unit {0}) × Db) : Type 0 where
  pub starts : s.0 ≡ ok tt
  pub stopped : has_open k s.1.floor.downtimes ≡ true
  pub completes : c.0 ≡ ok tt
  pub done : MaintenanceWorkOrder
  pub stored : get_elem? c.1.orders pk ≡ some done
  pub is_done : IsDone later notes value wo done
  pub no_stop : has_open k c.1.floor.downtimes ≡ false
  pub after : Machine
  pub machine : lookup k c.1.floor.machines ≡ some after
  pub idle : after.status ≡ machine_idle
  pub idle_since : after.status_since ≡ later

is_below_zero-lem :
    (value : Option ℤ) → ((v : ℤ) → value ≡ some v → pos 0 ≤ℤ v) → is_below_zero value ≡ false
is_below_zero-lem none fit = refl
is_below_zero-lem (some v) fit = let h = fit v refl in ground arith

ends_early-lem : (now : ℕ) (d : DowntimeEvent) → d.started_at ≤ now → ends_early now d ≡ false
ends_early-lem now d h = ground arith

module _ (iso : ℕ → Text) where
  begun_order :
      (pk now k : ℕ) (wo : MaintenanceWorkOrder) (m : Machine) (db : Db)
      → get_elem? db.orders pk ≡ some wo
      → get_elem? (opened_and_started iso pk wo now k m db).orders pk
        ≡ some (started_order now (length db.floor.downtimes) wo)
  unfolding opened_and_started save_started start_event add_event on_floor save_order open_stop
      started_order
  begun_order pk now k wo m db at = get_elem?-set-some db.orders pk _ at

  begun_stop :
      (pk now k : ℕ) (wo : MaintenanceWorkOrder) (m : Machine) (db : Db)
      → (d : DowntimeEvent) × (is_open_on k d ≡ true)
        × (d.started_at ≡ now)
        × ((opened_and_started iso pk wo now k m db).floor.downtimes ≡ db.floor.downtimes ++ d ∷ [])
  unfolding opened_and_started save_started start_event add_event on_floor save_order open_stop
      event_on save_machine create_downtime maintenance_reason is_open_on
  begun_stop pk now k wo m db = (_, ground (arith, ==_iff k k), refl, refl)

  begun_machine :
      (pk now k : ℕ) (wo : MaintenanceWorkOrder) (m : Machine) (db : Db)
      → lookup k (opened_and_started iso pk wo now k m db).floor.machines
        ≡ some (with_status (machine_status_of wo.order_type) now m)
  unfolding opened_and_started save_started start_event add_event on_floor save_order open_stop
      event_on save_machine create_downtime maintenance_reason
  begun_machine pk now k wo m db = lookup-insert_self k _ db.floor.machines

  begun_tables :
      (pk now k : ℕ) (wo : MaintenanceWorkOrder) (m : Machine) (db : Db)
      → ((opened_and_started iso pk wo now k m db).assets ≡ db.assets)
        × ((opened_and_started iso pk wo now k m db).plans ≡ db.plans)
  unfolding opened_and_started save_started start_event add_event on_floor save_order open_stop
  begun_tables pk now k wo m db = (refl, refl)

  finished-order :
      (pk : ℕ) (notes : Text) (value : Option ℤ) (now k i : ℕ) (wo : MaintenanceWorkOrder)
      (m : Machine) (plans : Table ℕ MaintenancePlan) (db : Db)
      → get_elem? db.orders pk ≡ some wo
      → (get_elem? (finished iso pk notes value now k i wo m plans db).orders pk
          ≡ some (completed_order now notes value wo))
        × ((finished iso pk notes value now k i wo m plans db).floor.downtimes
            ≡ end_at now i db.floor.downtimes)
        × (lookup k (finished iso pk notes value now k i wo m plans db).floor.machines
            ≡ some (with_status machine_idle now m))
  unfolding finished save_completed add_event on_floor save_order event_on save_machine add_reading
  finished-order pk notes value now k i wo m plans db at =
      (get_elem?-set-some db.orders pk _ at, refl, lookup-insert_self k _ db.floor.machines)

  -- An order that is planned, released or waits for parts, on an asset with a machine that has no
  -- open stop, where the rows of the asset, the machine and the plan, when the order has one, exist,
  -- the meter value, when one is given, is not negative, and the completion is no earlier than the
  -- start: it starts, which opens a stop on the machine, and then it can be completed, after
  -- which the order is completed at that time with the notes and the meter value given, for the same
  -- asset and plan, and the machine is idle since then without an open stop.
  pub start_complete-Serviced :
      (pk now later today k : ℕ) (notes : Text) (value : Option ℤ) (wo : MaintenanceWorkOrder)
      (a : MaintenanceAsset) (m : Machine) (db : Db)
      → get_elem? db.orders pk ≡ some wo
      → can_start wo.status ≡ true
      → lookup wo.asset db.assets ≡ some a
      → a.machine ≡ some k
      → lookup k db.floor.machines ≡ some m
      → has_open k db.floor.downtimes ≡ false
      → has_row wo.plan db.plans ≡ true
      → ((v : ℤ) → value ≡ some v → pos 0 ≤ℤ v)
      → now ≤ later
      → let s = start_work_order iso pk now db in
        let c = complete_work_order iso pk notes value later today s.1 in
        Serviced pk later k notes value wo s c
  unfolding with_status started_order
  start_complete-Serviced pk now later today k notes value wo a m db at can fa am fm none_open fp
        fit order_of_times =
      let n = length db.floor.downtimes in
      let st = opened_and_started iso pk wo now k m db in
      let wo' = started_order now n wo in
      let s_run = start_work_order-run iso pk now k wo a m db at can fa am fm none_open in
      let at' = begun_order pk now k wo m db at in
      let (d, d_open, begins, stops) = begun_stop pk now k wo m db in
      let fd : get_elem? st.floor.downtimes n ≡ some d =
        subst (λ ds. get_elem? ds n ≡ some d) (sym stops) (get_elem?-snoc db.floor.downtimes d) in
      let m' = with_status (machine_status_of wo.order_type) now m in
      let (assets, plans_kept) = begun_tables pk now k wo m db in
      let (plans, c_run) =
        complete_work_order-run iso pk notes value later today k n wo' a m' d st at' refl refl fd
          (ap (λ t. lookup wo.asset t) assets ∙ fa) am (begun_machine pk now k wo m db)
          (ap (has_row wo.plan) plans_kept ∙ fp) (is_below_zero-lem value fit)
          (ends_early-lem later d (rw begins order_of_times)) in
      let (order, stops_end, machine) =
        finished-order pk notes value later k n wo' m' plans st at' in
      let done = completed_order later notes value wo' in
      let run_completion : Db → Result Error (Unit {0}) × Db =
        complete_work_order iso pk notes value later today in
      subst (λ p. Serviced pk later k notes value wo p (run_completion p.1)) (sym s_run)
        (subst (λ c. Serviced pk later k notes value wo (ok tt, st) c) (sym c_run)
          (record {
            starts = refl;
            stopped =
                ap (has_open k) stops
                ∙ has_open-snoc k db.floor.downtimes d
                ∙ ground (arith, none_open, d_open);
            completes = refl;
            done = done;
            stored = order;
            is_done = completed_order-IsDone now n later notes value wo;
            no_stop =
                ap (has_open k) (stops_end ∙ ap (end_at later n) stops)
                ∙ has_open-end_at k later db.floor.downtimes d
                ∙ none_open;
            after = with_status machine_idle later m';
            machine = machine;
            idle = refl;
            idle_since = refl;
          }))
