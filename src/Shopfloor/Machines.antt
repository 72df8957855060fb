-- ===== src/Shopfloor/Machines.antt =====
-- Machines, their operations and their stops: `machine_operation_action` and `start_downtime` of
-- apps/shopfloor/services.py, on the tables of production that they write through its services.
-- Times are numbers; `stamp` is the text of the current time in the key of an event of production. A
-- stop has its position in the table as its id. Users are left out.
use mrp_django.Common.{DomainEvent, show}
use mrp_django.Inventory.Model.{type_eq}
use mrp_django.Prelude.{
  Action, Bool, List, Option, Result, Table, Text, [], atomic, codes, err, false, get,
  if◌then◌else◌, insert, length, lookup, modify, nat_eq, none, not, ok, option_eq, or_raise,
  pair_eq, pure, raise_if, some, text_eq, ℕ, ◌&&◌, ◌++◌, ◌==◌, ◌>>=◌, ◌>>◌, ◌||◌, ◌∷◌,
}
use mrp_django.Production.Operations.{
  Db, Error, WorkOrderOperation, advance_work_order_operation, append_event, is_active,
  operation_at,
}

pub data MachineStatus : Type 0 where
  machine_inactive machine_idle machine_setup machine_running : MachineStatus
  machine_down machine_repair machine_preventive : MachineStatus

pub record Machine : Type 0 where
  pub plant : ℕ
  pub work_center : ℕ
  pub status : MachineStatus
  pub current_operation : Option ℕ
  pub status_since : ℕ

pub data Category : Type 0 where
  unplanned planned_stop quality_stop material_stop tooling_stop other_stop : Category

-- `DowntimeReason`, whose unique key is the pair of plant and code.
pub record DowntimeReason : Type 0 where
  pub category : Category
  pub description : Text

pub record DowntimeEvent : Type 0 where
  pub machine : ℕ
  pub operation : Option ℕ
  pub reason : ℕ × Text
  pub started_at : ℕ
  pub ended_at : Option ℕ
  pub notes : Text

-- `work_centers` holds the work center of each operation.
pub record Floor : Type 0 where
  pub machines : Table ℕ Machine
  pub downtimes : List DowntimeEvent
  pub reasons : Table (ℕ × Text) DowntimeReason
  pub work_centers : Table ℕ ℕ
  pub production : Db

pub data FloorError : Type 0 where
  machine_missing reason_of_other_plant already_stopped : FloorError
  other_work_center other_operation invalid_action : FloorError
  in_production : Error → FloorError

abbrev pub FloorAct : Type 0 → Type 0
FloorAct = Action FloorError Floor

abbrev pub lifted : {A : Type 0} → Floor → Result Error A × Db → Result FloorError A × Floor
lifted f (ok a, p) = (ok a, record f { production = p })
lifted f (err e, p) = (err (in_production e), record f { production = p })

-- A call of a service of production.
abbrev pub on_production : {A : Type 0} → Action Error Db A → FloorAct A
on_production m f = lifted f (m f.production)

unfoldable pub is_open_on : ℕ → DowntimeEvent → Bool
is_open_on machine d = d.machine == machine && d.ended_at == none

-- `filter(machine=machine, ended_at__isnull=True).exists()`
unfoldable pub has_open : ℕ → List DowntimeEvent → Bool
has_open machine [] = false
has_open machine (d ∷ ds) = is_open_on machine d || has_open machine ds

unfoldable pub machine_at : ℕ → FloorAct Machine
machine_at pk = do f ← get; or_raise (lookup pk f.machines) machine_missing

unfoldable pub save_machine : ℕ → Machine → Floor → Floor
save_machine pk m f = record f { machines = insert pk m f.machines }

unfoldable pub create_downtime : DowntimeEvent → Floor → Floor
create_downtime d f = record f { downtimes = f.downtimes ++ d ∷ [] }

unfoldable pub event_on : DomainEvent → Floor → Floor
event_on e f = record f { production = append_event e f.production }

-- `machine.status` and `machine.status_since`
unfoldable pub with_status : MachineStatus → ℕ → Machine → Machine
with_status s now m = record m { status = s; status_since = now }

unfoldable pub interrupt_active : ℕ → Text → WorkOrderOperation → FloorAct (Unit {0})
interrupt_active pk stamp o =
    if is_active o.status
    then on_production (advance_work_order_operation pk (codes "INTERRUPT") stamp) >> pure tt
    else pure tt

-- The current operation is interrupted when it is in setup or runs.
unfoldable pub interrupt_current : Option ℕ → Text → FloorAct (Unit {0})
interrupt_current none stamp = pure tt
interrupt_current (some pk) stamp = on_production (operation_at pk) >>= interrupt_active pk stamp

unfoldable pub stop_event : ℕ → ℕ → DomainEvent
stop_event pk id = record {
  idempotency_key = codes "shopfloor:downtime:start:" ++ show id;
  event_type = codes "MACHINE_DOWNTIME_STARTED";
  aggregate_type = codes "MACHINE";
  aggregate_id = show pk;
}

unfoldable pub stop_machine : ℕ → Machine → ℕ × Text → Text → ℕ → Floor → Floor
stop_machine pk m reason notes now f =
    let d : DowntimeEvent = record {
      machine = pk;
      operation = m.current_operation;
      reason = reason;
      started_at = now;
      ended_at = none;
      notes = notes;
    } in
    event_on (stop_event pk (length f.downtimes))
      (save_machine pk (with_status machine_down now m) (create_downtime d f))

unfoldable pub stop_now : ℕ → ℕ × Text → Text → ℕ → Text → Machine → FloorAct (Unit {0})
stop_now pk reason notes now stamp m = do
  interrupt_current m.current_operation stamp
  modify (stop_machine pk m reason notes now)

unfoldable pub start_found : ℕ → ℕ × Text → Text → ℕ → Text → Machine → FloorAct (Unit {0})
start_found pk reason notes now stamp m = do
  raise_if (not (reason.0 == m.plant)) reason_of_other_plant
  f ← get
  raise_if (has_open pk f.downtimes) already_stopped
  stop_now pk reason notes now stamp m

unfoldable pub start_downtime : ℕ → ℕ × Text → Text → ℕ → Text → FloorAct (Unit {0})
start_downtime pk reason notes now stamp =
    atomic (machine_at pk >>= start_found pk reason notes now stamp)

-- `mapping`; the action is given in capitals.
unfoldable pub status_of_action : Text → Option MachineStatus
status_of_action action =
    if action == codes "SETUP"
    then some machine_setup
    else if action == codes "RUN"
    then some machine_running
    else if action == codes "INTERRUPT"
    then some machine_idle
    else if action == codes "READY"
    then some machine_idle
    else none

abbrev pub is_other : Option ℕ → ℕ → Bool
is_other none pk = false
is_other (some k) pk = not (k == pk)

unfoldable pub assign : ℕ → ℕ → MachineStatus → ℕ → Machine → Floor → Floor
assign pk op s now m f =
    save_machine pk (with_status s now (record m { current_operation = some op })) f

unfoldable pub move_machine : ℕ → ℕ → Text → ℕ → Text → Machine → FloorAct (Unit {0})
move_machine pk op action now stamp m = do
  s ← or_raise (status_of_action action) invalid_action
  on_production (advance_work_order_operation op action stamp)
  modify (assign pk op s now m)

unfoldable pub act_on_found : ℕ → ℕ → Text → ℕ → Text → Machine → FloorAct (Unit {0})
act_on_found pk op action now stamp m = do
  f ← get
  raise_if (not (lookup op f.work_centers == some m.work_center)) other_work_center
  raise_if (is_other m.current_operation op) other_operation
  move_machine pk op action now stamp m

unfoldable pub machine_operation_action : ℕ → ℕ → Text → ℕ → Text → FloorAct (Unit {0})
machine_operation_action pk op action now stamp =
    atomic (machine_at pk >>= act_on_found pk op action now stamp)
