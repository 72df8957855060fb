-- ===== src/Maintenance/Orders.antt =====
-- `start_work_order` and `_maintenance_reason` of apps/maintenance/services.py. `iso` is
-- `isoformat` of a time.
use mrp_django.Common.{show}
use mrp_django.Inventory.Model.{type_eq}
use mrp_django.Maintenance.Model.{
  Act, Db, FailureEvent, MaintenanceWorkOrder, OrderType, Status, add_event, asset_at, in_progress,
  machine_already_stopped, missing_row, not_startable, number_text, on_floor, order_at, planned,
  preventive, released, save_order, waiting_parts,
}
use mrp_django.Prelude.{
  Bool, List, Option, Text, [], atomic, codes, false, get, if◌then◌else◌, insert, length, lookup,
  modify, nat_eq, none, not, option_eq, or_raise, pair_eq, raise_if, some, text_eq, true, ℕ, ◌&&◌,
  ◌++◌, ◌==◌, ◌>>=◌, ◌>>◌, ◌∷◌,
}
use mrp_django.Shopfloor.Machines.{
  Category, DowntimeEvent, DowntimeReason, Floor, Machine, MachineStatus, create_downtime, has_open,
  machine_preventive, machine_repair, material_stop, other_stop, planned_stop, quality_stop,
  save_machine, tooling_stop, unplanned, with_status,
}

abbrev pub can_start : Status → Bool
can_start planned = true
can_start released = true
can_start waiting_parts = true
can_start _ = false

abbrev pub is_preventive : OrderType → Bool
is_preventive preventive = true
is_preventive _ = false

-- The position in the declaration, by which two categories are compared.
abbrev pub category_code : Category → ℕ
category_code unplanned = 0
category_code planned_stop = 1
category_code quality_stop = 2
category_code material_stop = 3
category_code tooling_stop = 4
category_code other_stop = 5

abbrev pub reason_code : Bool → Text
reason_code true = codes "MAINT-PREV"
reason_code false = codes "MAINT-CORR"

abbrev pub reason_of : Bool → DowntimeReason
reason_of true = record { category = planned_stop; description = codes "Manutenção preventiva" }
reason_of false = record { category = unplanned; description = codes "Manutenção corretiva" }

-- The row after `get_or_create` and the repair of its category.
unfoldable pub repaired : DowntimeReason → Option DowntimeReason → DowntimeReason
repaired wanted none = wanted
repaired wanted (some r) =
    if category_code r.category == category_code wanted.category then r else wanted

unfoldable pub maintenance_reason : ℕ → Bool → Floor → Floor
maintenance_reason plant is_planned f =
    let key : ℕ × Text = (plant, reason_code is_planned) in
    record f {
      reasons = insert key (repaired (reason_of is_planned) (lookup key f.reasons)) f.reasons;
    }

-- `failure_events.filter(downtime_event__isnull=True).update(downtime_event=event)`
unfoldable pub link_failures : ℕ → ℕ → List FailureEvent → List FailureEvent
link_failures pk event [] = []
link_failures pk event (e ∷ es) =
    (if e.work_order == some pk && e.downtime_event == none
      then record e { downtime_event = some event }
      else e)
    ∷ link_failures pk event es

abbrev pub or_now : Option ℕ → ℕ → ℕ
or_now none now = now
or_now (some t) now = t

abbrev pub machine_status_of : OrderType → MachineStatus
machine_status_of t = if is_preventive t then machine_preventive else machine_repair

-- The stop that the order opens on its machine.
unfoldable pub open_stop : ℕ → MaintenanceWorkOrder → ℕ → ℕ → Machine → Db → Db
open_stop pk wo now k m db =
    let d : DowntimeEvent = record {
      machine = k;
      operation = none;
      reason = (wo.plant, reason_code (is_preventive wo.order_type));
      started_at = now;
      ended_at = none;
      notes = codes "Manutenção " ++ number_text wo.number;
    } in
    let opened =
      on_floor
        (λ f.
          save_machine k (with_status (machine_status_of wo.order_type) now m)
            (create_downtime d (maintenance_reason wo.plant (is_preventive wo.order_type) f)))
        db in
    record opened { failures = link_failures pk (length db.floor.downtimes) opened.failures }

unfoldable pub floor_machine_at : ℕ → Act Machine
floor_machine_at k = do db ← get; or_raise (lookup k db.floor.machines) missing_row

module _ (iso : ℕ → Text) where
  unfoldable pub start_event : ℕ → ℕ → Db → Db
  start_event pk began db =
      add_event (codes "maint-start:" ++ show pk ++ codes ":" ++ iso began)
        "MAINTENANCE_ORDER_STARTED" "MaintenanceWorkOrder" pk db

  unfoldable pub save_started : ℕ → MaintenanceWorkOrder → ℕ → Option ℕ → Db → Db
  save_started pk wo now event db =
      let began : ℕ = or_now wo.started_at now in
      start_event pk began (
        save_order pk
          (record wo { status = in_progress; started_at = some began; downtime_event = event }) db)

  unfoldable pub start_on_machine : ℕ → MaintenanceWorkOrder → ℕ → ℕ → Machine → Act (Unit {0})
  start_on_machine pk wo now k m = do
    db ← get
    raise_if (has_open k db.floor.downtimes) machine_already_stopped
    modify (open_stop pk wo now k m)
    modify (save_started pk wo now (some (length db.floor.downtimes)))

  unfoldable pub start_on : ℕ → MaintenanceWorkOrder → ℕ → Option ℕ → Act (Unit {0})
  start_on pk wo now none = modify (save_started pk wo now wo.downtime_event)
  start_on pk wo now (some k) = floor_machine_at k >>= start_on_machine pk wo now k

  unfoldable pub start_found : ℕ → ℕ → MaintenanceWorkOrder → Act (Unit {0})
  start_found pk now wo = do
    raise_if (not (can_start wo.status)) not_startable
    a ← asset_at wo.asset
    start_on pk wo now a.machine

  unfoldable pub start_work_order : ℕ → ℕ → Act (Unit {0})
  start_work_order pk now = atomic (order_at pk >>= start_found pk now)
