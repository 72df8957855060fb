-- ===== src/Maintenance/Completion.antt =====
-- `complete_work_order` and `latest_meter` of apps/maintenance/services.py. `today` is the local date.
use mrp_django.Common.{show}
use mrp_django.Inventory.Model.{type_eq}
use mrp_django.Maintenance.Model.{
  Act, AssetMeterReading, Db, FailureEvent, MaintenanceAsset, MaintenancePlan, MaintenanceWorkOrder,
  Status, Strategy, add_event, asset_at, calendar, completed, in_progress, integrity_error, meter,
  missing_row, not_in_progress, on_floor, order_at, save_order,
}
use mrp_django.Prelude.{
  Bool, List, Option, Text, [], atomic, codes, eqb_ℤ, false, get, get_elem?, if◌then◌else◌, insert,
  leb_ℤ, lookup, ltb, ltb_ℤ, modify, nat_eq, none, not, option_eq, or_raise, pair_eq, pos, pure,
  raise_if, some, suc, text_eq, true, zero, ℕ, ℤ, ◌&&◌, ◌++◌, ◌+ℤ◌, ◌+◌, ◌==◌, ◌>>=◌, ◌>>◌, ◌∷◌,
}
use mrp_django.Shopfloor.Machines.{DowntimeEvent, machine_idle, save_machine, with_status}

abbrev pub is_in_progress : Status → Bool
is_in_progress in_progress = true
is_in_progress _ = false

abbrev pub goes_by_date : Strategy → Bool
goes_by_date meter = false
goes_by_date _ = true

abbrev pub goes_by_meter : Strategy → Bool
goes_by_meter calendar = false
goes_by_meter _ = true

abbrev pub larger : ℤ → Option ℤ → Option ℤ
larger v none = some v
larger v (some w) = if leb_ℤ v w then some w else some v

-- `Max("meter_value")` of the asset's readings
unfoldable pub max_meter : ℕ → List AssetMeterReading → Option ℤ
max_meter asset [] = none
max_meter asset (r ∷ rs) =
    let rest = max_meter asset rs in if r.asset == asset then larger r.meter_value rest else rest

abbrev pub or_zero : Option ℤ → ℤ
or_zero none = pos 0
or_zero (some v) = v

unfoldable pub latest_meter : ℕ → Db → ℤ
latest_meter asset db = or_zero (max_meter asset db.readings)

-- A reading is taken when a value is given.
abbrev pub with_reading : ℕ → Option ℤ → List AssetMeterReading → List AssetMeterReading
with_reading asset none rs = rs
with_reading asset (some v) rs = rs ++ record { asset = asset; meter_value = v } ∷ []

unfoldable pub add_reading : ℕ → Option ℤ → Db → Db
add_reading asset value db = record db { readings = with_reading asset value db.readings }

abbrev pub is_below_zero : Option ℤ → Bool
is_below_zero none = false
is_below_zero (some v) = ltb_ℤ v (pos 0)

-- The table takes no negative value (`ck_asset_meter_nonneg`).
unfoldable pub create_reading : ℕ → Option ℤ → Act (Unit {0})
create_reading asset value = do
  raise_if (is_below_zero value) integrity_error
  modify (add_reading asset value)

abbrev pub or_else : {A : Type 0} → Option A → Option A → Option A
or_else (some a) b = some a
or_else none b = b

-- A stop that has ended keeps its end.
unfoldable pub ended : ℕ → DowntimeEvent → DowntimeEvent
ended now d = if d.ended_at == none then record d { ended_at = some now } else d

unfoldable pub end_at : ℕ → ℕ → List DowntimeEvent → List DowntimeEvent
end_at now i [] = []
end_at now zero (d ∷ ds) = ended now d ∷ ds
end_at now (suc i) (d ∷ ds) = d ∷ end_at now i ds

-- An end before the start (`ck_downtime_end_after_start`).
abbrev pub ends_early : ℕ → DowntimeEvent → Bool
ends_early now d = d.ended_at == none && ltb now d.started_at

unfoldable pub end_stop : Option ℕ → ℕ → Act (Unit {0})
end_stop none now = pure tt
end_stop (some i) now = do
  db ← get
  d ← or_raise (get_elem? db.floor.downtimes i) missing_row
  raise_if (ends_early now d) integrity_error
  modify (on_floor (λ f. record f { downtimes = end_at now i f.downtimes }))

unfoldable pub free_machine : Option ℕ → ℕ → Act (Unit {0})
free_machine none now = pure tt
free_machine (some k) now = do
  db ← get
  m ← or_raise (lookup k db.floor.machines) missing_row
  modify (on_floor (save_machine k (with_status machine_idle now m)))

abbrev pub or_latest : Option ℤ → ℤ → ℤ
or_latest none latest = latest
or_latest (some v) latest = v

-- The plan with the dates of its next order; `base` is the meter that the interval is added to.
unfoldable pub next_due : ℕ → ℤ → MaintenancePlan → MaintenancePlan
next_due today base p = record p {
  next_due_date =
      if not (p.interval_days == 0) && goes_by_date p.strategy
      then some (today + p.interval_days)
      else p.next_due_date;
  next_due_meter =
      if not (eqb_ℤ p.interval_meter (pos 0)) && goes_by_meter p.strategy
      then some (base +ℤ p.interval_meter)
      else p.next_due_meter;
}

unfoldable pub save_plan : ℕ → MaintenancePlan → Db → Db
save_plan k p db = record db { plans = insert k p db.plans }

unfoldable pub renew_plan : Option ℕ → MaintenanceWorkOrder → ℕ → Act (Unit {0})
renew_plan none wo today = pure tt
renew_plan (some k) wo today = do
  db ← get
  p ← or_raise (lookup k db.plans) missing_row
  let base = or_latest wo.meter_at_completion (latest_meter wo.asset db)
  modify (save_plan k (next_due today base p))

abbrev pub or_text : Text → Text → Text
or_text [] t = t
or_text (c ∷ s) t = c ∷ s

-- The open failures of the order are resolved.
unfoldable pub resolve_failures : ℕ → ℕ → Text → List FailureEvent → List FailureEvent
resolve_failures pk now notes [] = []
resolve_failures pk now notes (e ∷ es) =
    (if e.work_order == some pk && e.resolved_at == none
      then record e {
        resolved_at = some now;
        corrective_action = or_text e.corrective_action notes;
      }
      else e)
    ∷ resolve_failures pk now notes es

unfoldable pub completed_order : ℕ → Text → Option ℤ → MaintenanceWorkOrder → MaintenanceWorkOrder
completed_order now notes value wo = record wo {
  status = completed;
  completed_at = some now;
  completion_notes = notes;
  meter_at_completion = or_else value wo.meter_at_completion;
}

module _ (iso : ℕ → Text) where
  unfoldable pub save_completed : ℕ → Text → ℕ → MaintenanceWorkOrder → Db → Db
  save_completed pk notes now wo db =
      let saved = save_order pk wo db in
      add_event (codes "maint-complete:" ++ show pk ++ codes ":" ++ iso now)
        "MAINTENANCE_ORDER_COMPLETED" "MaintenanceWorkOrder" pk
        (record saved { failures = resolve_failures pk now notes saved.failures })

  unfoldable pub finish_order :
      ℕ → Text → ℕ → ℕ → MaintenanceWorkOrder → MaintenanceAsset → Act (Unit {0})
  finish_order pk notes now today wo a = do
    free_machine a.machine now
    renew_plan wo.plan wo today
    modify (save_completed pk notes now wo)

  unfoldable pub complete_found :
      ℕ → Text → Option ℤ → ℕ → ℕ → MaintenanceWorkOrder → Act (Unit {0})
  complete_found pk notes value now today wo = do
    raise_if (not (is_in_progress wo.status)) not_in_progress
    create_reading wo.asset value
    end_stop wo.downtime_event now
    a ← asset_at wo.asset
    finish_order pk notes now today (completed_order now notes value wo) a

  unfoldable pub complete_work_order : ℕ → Text → Option ℤ → ℕ → ℕ → Act (Unit {0})
  complete_work_order pk notes value now today =
      atomic (order_at pk >>= complete_found pk notes value now today)
