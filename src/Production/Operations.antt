-- ===== src/Production/Operations.antt =====
-- `advance_work_order_operation` and `report_work_order_operation` of apps/production/services.py.
-- Quantities and hours are whole numbers of 0.0001. Of the times only whether they are set is kept.
use mrp_django.Common.{DomainEvent, append_domain_event, show}
use mrp_django.Inventory.Model.{type_eq}
use mrp_django.Prelude.{
  Action, Bool, List, Option, Table, Text, [], atomic, codes, eqb_ℤ, false, get, if◌then◌else◌,
  insert, leb, lookup, ltb, ltb_ℤ, modify, nat_eq, none, not, option_eq, or_raise, pair_eq, pos,
  pure, raise_if, some, text_eq, true, ℕ, ℤ, ◌&&◌, ◌++◌, ◌-◌, ◌==◌, ◌>>=◌, ◌>>◌, ◌||◌, ◌∷◌,
}

pub data OrderStatus : Type 0 where
  planned released order_started order_completed order_closed order_cancelled : OrderStatus

pub data OperationStatus : Type 0 where
  pending ready setup running interrupted completed : OperationStatus

pub record WorkOrderOperation : Type 0 where
  pub work_order : ℕ
  pub sequence : ℕ
  pub status : OperationStatus
  pub has_actual_start : Bool
  pub has_actual_end : Bool

pub record ProductionReport : Type 0 where
  pub work_order : ℕ
  pub operation : ℕ
  pub good_quantity : ℤ
  pub scrap_quantity : ℤ
  pub labor_hours : ℤ
  pub machine_hours : ℤ

pub record Db : Type 0 where
  pub statuses : Table ℕ OrderStatus
  pub operations : Table ℕ WorkOrderOperation
  pub reports : List ProductionReport
  pub events : List DomainEvent

pub data Error : Type 0 where
  missing_row order_not_open bad_action bad_transition : Error
  not_reportable negative_value nothing_reported : Error

abbrev pub Act : Type 0 → Type 0
Act = Action Error Db

abbrev pub is_open : OrderStatus → Bool
is_open released = true
is_open order_started = true
is_open _ = false

abbrev pub is_released : OrderStatus → Bool
is_released released = true
is_released _ = false

-- `str.upper`, exact for every text whose capitals are one of the actions: besides a to z only the
-- dotless i and the long s have capitals among their letters.
abbrev pub upper_char : ℕ → ℕ
upper_char c =
    if leb b'a' c && leb c b'z'
    then c - 32
    else if c == 0x131
    then b'I'
    else if c == 0x17F
    then b'S'
    else c

-- `(action or "").upper()`; None is the empty text.
abbrev pub upper : Text → Text
upper [] = []
upper (c ∷ t) = upper_char c ∷ upper t

-- The keys of `transitions`.
unfoldable pub target_of : Text → Option OperationStatus
target_of action =
    if action == codes "READY"
    then some ready
    else if action == codes "SETUP"
    then some setup
    else if action == codes "RUN"
    then some running
    else if action == codes "INTERRUPT"
    then some interrupted
    else none

-- `allowed`, by the target.
abbrev pub allows : OperationStatus → OperationStatus → Bool
allows ready pending = true
allows ready interrupted = true
allows setup pending = true
allows setup ready = true
allows setup interrupted = true
allows running ready = true
allows running setup = true
allows running interrupted = true
allows interrupted setup = true
allows interrupted running = true
allows _ _ = false

abbrev pub is_active : OperationStatus → Bool
is_active setup = true
is_active running = true
is_active _ = false

unfoldable pub operation_at : ℕ → Act WorkOrderOperation
operation_at pk = do db ← get; or_raise (lookup pk db.operations) missing_row

unfoldable pub status_at : ℕ → Act OrderStatus
status_at order = do db ← get; or_raise (lookup order db.statuses) missing_row

unfoldable pub save_operation : ℕ → WorkOrderOperation → Db → Db
save_operation pk o db = record db { operations = insert pk o db.operations }

unfoldable pub start_order : Bool → ℕ → Db → Db
start_order b order db =
    if b then record db { statuses = insert order order_started db.statuses } else db

unfoldable pub moved : WorkOrderOperation → OperationStatus → WorkOrderOperation
moved o target = record o {
  status = target;
  has_actual_start = o.has_actual_start || is_active target;
}

unfoldable pub operation_event : ℕ → Text → Text → DomainEvent
operation_event pk action now = record {
  idempotency_key =
      codes "event:work-order-operation:" ++ show pk ++ codes ":" ++ action ++ codes ":" ++ now;
  event_type = codes "WORK_ORDER_OPERATION_" ++ action;
  aggregate_type = codes "WORK_ORDER_OPERATION";
  aggregate_id = show pk;
}

unfoldable pub append_event : DomainEvent → Db → Db
append_event e db = record db { events = (append_domain_event e db.events).1 }

unfoldable pub move_operation :
    ℕ → WorkOrderOperation → OrderStatus → OperationStatus → Text → Text → Act WorkOrderOperation
move_operation pk o s target action now = do
  raise_if (not (allows target o.status)) bad_transition
  modify (save_operation pk (moved o target))
  modify (start_order (is_released s && is_active target) o.work_order)
  modify (append_event (operation_event pk action now))
  pure (moved o target)

unfoldable pub advance_body : ℕ → Text → Text → Act WorkOrderOperation
advance_body pk given now = do
  o ← operation_at pk
  s ← status_at o.work_order
  raise_if (not (is_open s)) order_not_open
  let action = upper given
  target ← or_raise (target_of action) bad_action
  move_operation pk o s target action now

unfoldable pub advance_work_order_operation : ℕ → Text → Text → Act WorkOrderOperation
advance_work_order_operation pk action now = atomic (advance_body pk action now)

abbrev pub is_reportable : OperationStatus → Bool
is_reportable pending = false
is_reportable completed = false
is_reportable _ = true

-- `order_by("sequence").first()` of the pending operations after `sequence`.
unfoldable pub is_next : ℕ → ℕ → WorkOrderOperation → Bool
is_next order sequence o = o.work_order == order && ltb sequence o.sequence && is_pending o.status
  where
    is_pending : OperationStatus → Bool
    is_pending pending = true
    is_pending _ = false

unfoldable pub sooner :
    ℕ × WorkOrderOperation → Option (ℕ × WorkOrderOperation) → Option (ℕ × WorkOrderOperation)
sooner (k, o) none = some (k, o)
sooner (k, o) (some (j, p)) = if ltb p.sequence o.sequence then some (j, p) else some (k, o)

unfoldable pub next_operation : ℕ → ℕ → Table ℕ WorkOrderOperation → Option (ℕ × WorkOrderOperation)
next_operation order sequence [] = none
next_operation order sequence ((k, o) ∷ rows) =
    let rest = next_operation order sequence rows in
    if is_next order sequence o then sooner (k, o) rest else rest

unfoldable pub ready_next : Option (ℕ × WorkOrderOperation) → Db → Db
ready_next none db = db
ready_next (some (k, o)) db = save_operation k (record o { status = ready }) db

unfoldable pub report_event : ℕ → ℕ → DomainEvent
report_event pk id = record {
  idempotency_key = codes "event:work-order-operation-report:" ++ show id;
  event_type = codes "WORK_ORDER_OPERATION_REPORTED";
  aggregate_type = codes "WORK_ORDER_OPERATION";
  aggregate_id = show pk;
}

unfoldable pub is_negative : ProductionReport → Bool
is_negative r =
    ltb_ℤ r.good_quantity (pos 0)
    || ltb_ℤ r.scrap_quantity (pos 0)
    || ltb_ℤ r.labor_hours (pos 0)
    || ltb_ℤ r.machine_hours (pos 0)

unfoldable pub is_nothing : ProductionReport → Bool
is_nothing r =
    eqb_ℤ r.good_quantity (pos 0)
    && eqb_ℤ r.scrap_quantity (pos 0)
    && eqb_ℤ r.labor_hours (pos 0)
    && eqb_ℤ r.machine_hours (pos 0)

unfoldable pub create_report : ProductionReport → Db → Db
create_report r db = record db { reports = r ∷ db.reports }

unfoldable pub finish_operation :
    ℕ → WorkOrderOperation → OrderStatus → ProductionReport → ℕ → Db → Db
finish_operation pk o s r id db =
    let done =
      save_operation pk (record o { status = completed; has_actual_end = true })
        (create_report r db) in
    append_event (report_event pk id) (
      start_order (is_released s) o.work_order
        (ready_next (next_operation o.work_order o.sequence done.operations) done))

unfoldable pub owned : ProductionReport → ℕ → ℕ → ProductionReport
owned given order pk = record given { work_order = order; operation = pk }

-- `id` is the one that the table gives the report.
unfoldable pub write_report :
    ℕ → ProductionReport → ℕ → WorkOrderOperation → OrderStatus → Act ProductionReport
write_report pk given id o s = do
  modify (finish_operation pk o s (owned given o.work_order pk) id)
  pure (owned given o.work_order pk)

unfoldable pub check_report :
    ℕ → ProductionReport → ℕ → WorkOrderOperation → OrderStatus → Act ProductionReport
check_report pk given id o s = do
  raise_if (not (is_reportable o.status)) not_reportable
  raise_if (is_negative given) negative_value
  raise_if (is_nothing given) nothing_reported
  write_report pk given id o s

unfoldable pub report_body : ℕ → ProductionReport → ℕ → Act ProductionReport
report_body pk given id = do
  o ← operation_at pk
  s ← status_at o.work_order
  check_report pk given id o s

unfoldable pub report_work_order_operation : ℕ → ProductionReport → ℕ → Act ProductionReport
report_work_order_operation pk given id = atomic (report_body pk given id)
