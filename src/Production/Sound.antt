-- ===== src/Production/Sound.antt =====
-- Operations and orders under any sequence of calls.
use mrp_django.Inventory.Model.{type_eq}
use mrp_django.Prelude.{
  ==_iff, Bool, Bool-cases, List, Option, Option-cases, Result, Text, [], ap, arith, err, false,
  if◌then◌else◌, inl, inr, insert, lookup, lookup-insert, nat_eq, none, ok, option_eq, pair_eq,
  refl, roll_back, some, sym, text_eq, true, ℕ, ◌&&◌, ◌==◌, ◌∙◌, ◌∷◌, ◌≡◌,
}
use mrp_django.Production.Moves.{
  Writes, advance_work_order_operation-Writes, fine_moves, is_fine, is_underway,
}
use mrp_django.Production.Operations.{
  Db, Error, OperationStatus, OrderStatus, ProductionReport, WorkOrderOperation,
  advance_work_order_operation, append_event, check_report, completed, create_report,
  finish_operation, is_active, is_negative, is_nothing, is_released, is_reportable, moved,
  operation_at, order_started, owned, ready, ready_next, report_body, report_work_order_operation,
  save_operation, start_order, status_at, write_report,
}

-- Each operation that is under way has a start time, and its order has begun.
unfoldable pub IsSound : Db → Type 0
IsSound db =
    (pk : ℕ) (o : WorkOrderOperation)
    → lookup pk db.operations ≡ some o
    → is_fine (lookup o.work_order db.statuses) o.status o.has_actual_start ≡ true

start_order-lookup :
    (b : Bool) (order k : ℕ) (db : Db)
    → lookup k (start_order b order db).statuses
      ≡ (if b && order == k then some order_started else lookup k db.statuses)
unfolding start_order
start_order-lookup b order k db = ground (arith, lookup-insert order k order_started db.statuses)

start_order-operations :
    (b : Bool) (order : ℕ) (db : Db) → (start_order b order db).operations ≡ db.operations
unfolding start_order
start_order-operations b order db = ground arith

start_order-is_fine :
    (b : Bool) (order k : ℕ) (st : OperationStatus) (started : Bool) (db : Db)
    → is_fine (lookup k db.statuses) st started ≡ true
    → is_fine (lookup k (start_order b order db).statuses) st started ≡ true
start_order-is_fine b order k st started db h = rw (start_order-lookup b order k db) (ground arith)

start_order-own :
    (b : Bool) (order : ℕ) (s : OrderStatus) (db : Db)
    → lookup order db.statuses ≡ some s
    → lookup order (start_order b order db).statuses ≡ some (if b then order_started else s)
start_order-own b order s db found =
    ground (arith, start_order-lookup b order order db, found, (==_iff order order).1 refl)

-- Rows of `operations` rewritten, orders started.
save-IsSound :
    (pk : ℕ) (o : WorkOrderOperation) (b : Bool) (order : ℕ) (db db' : Db)
    → db'.operations ≡ insert pk o db.operations
    → db'.statuses ≡ (start_order b order db).statuses
    → is_fine (lookup o.work_order db'.statuses) o.status o.has_actual_start ≡ true
    → IsSound db
    → IsSound db'
unfolding IsSound
save-IsSound pk o b order db db' os ss fine h k p at = elim (Bool-cases (pk == k)) [
  | inl y ↦
      let same : o ≡ p = ground (arith, os, lookup-insert pk k o db.operations) in rw (← same) fine
  | inr n ↦
      let was : lookup k db.operations ≡ some p =
        ground (arith, os, lookup-insert pk k o db.operations) in
      rw ss (start_order-is_fine b order p.work_order p.status p.has_actual_start db (h k p was))
]

advance-IsSound :
    (pk : ℕ) (action now : Text) (db : Db)
    → IsSound db
    → IsSound (advance_work_order_operation pk action now db).1
unfolding IsSound moved
advance-IsSound pk action now db h =
    by_result (advance_work_order_operation pk action now db)
      (advance_work_order_operation-Writes pk action now db)
  where
    by_result : (p : Result Error WorkOrderOperation × Db) → Writes pk action db p → IsSound p.1
    by_result (err x, db') same = rw same h
    by_result (ok o, db') a =
        let before : is_fine (some a.order) a.old.status a.old.has_actual_start ≡ true =
          ap (λ s. is_fine s a.old.status a.old.has_actual_start) (sym a.found_order)
          ∙ h pk a.old a.found in
        let after =
          fine_moves a.order a.old.status a.target a.old.has_actual_start a.order_open a.permitted
            before in
        let row : lookup a.old.work_order db'.statuses
            ≡ some (if is_released a.order && is_active a.target then order_started else a.order) =
          rw (a.statuses) (start_order-own _ a.old.work_order a.order db a.found_order) in
        save-IsSound pk o (is_released a.order && is_active a.target) a.old.work_order db db'
          a.operations a.statuses (rw (a.is_moved, row) after) h

-- An operation that is not under way needs no order that has begun.
rest-IsSound :
    (pk : ℕ) (o : WorkOrderOperation) (db : Db)
    → is_underway o.status ≡ false
    → IsSound db
    → IsSound (save_operation pk o db)
unfolding save_operation start_order
rest-IsSound pk o db idle h =
    save-IsSound pk o false 0 db (save_operation pk o db) refl refl (ground (arith, idle)) h

ready_next-IsSound :
    (next : Option (ℕ × WorkOrderOperation)) (db : Db) → IsSound db → IsSound (ready_next next db)
unfolding ready_next
ready_next-IsSound none db h = h
ready_next-IsSound (some (k, o)) db h = rest-IsSound k (record o { status = ready }) db refl h

start_order-IsSound :
    (b : Bool) (order : ℕ) (db : Db) → IsSound db → IsSound (start_order b order db)
unfolding IsSound
start_order-IsSound b order db h pk o at =
    start_order-is_fine b order o.work_order o.status o.has_actual_start db
      (h pk o (ground (arith, at, start_order-operations b order db)))

finish_operation-IsSound :
    (pk : ℕ) (o : WorkOrderOperation) (s : OrderStatus) (r : ProductionReport) (id : ℕ) (db : Db)
    → IsSound db
    → IsSound (finish_operation pk o s r id db)
unfolding finish_operation append_event create_report IsSound
finish_operation-IsSound pk o s r id db h =
    let finished : WorkOrderOperation = record o { status = completed; has_actual_end = true } in
    start_order-IsSound (is_released s) o.work_order _
      (ready_next-IsSound _ _ (rest-IsSound pk finished (create_report r db) refl h))

-- What a successful report has found, tested and written.
record Reported (pk : ℕ) (given : ProductionReport) (id : ℕ) (db : Db) (r : ProductionReport)
    (db' : Db) : Type 0 where
  old : WorkOrderOperation
  order : OrderStatus
  found : lookup pk db.operations ≡ some old
  reportable : is_reportable old.status ≡ true
  values : (is_negative given ≡ false) × (is_nothing given ≡ false)
  stored : r ≡ owned given old.work_order pk
  written : db' ≡ finish_operation pk old order r id db

check_report-ok :
    (pk : ℕ) (given r : ProductionReport) (id : ℕ) (o : WorkOrderOperation) (s : OrderStatus)
    (db db' : Db)
    → check_report pk given id o s db ≡ (ok r, db')
    → (is_reportable o.status ≡ true)
      × (is_negative given ≡ false)
      × (is_nothing given ≡ false)
      × (write_report pk given id o s db ≡ (ok r, db'))
unfolding check_report
check_report-ok pk given r id o s db db' e =
    (ground arith, ground arith, ground arith, ground arith)

write_report-ok :
    (pk : ℕ) (given r : ProductionReport) (id : ℕ) (o : WorkOrderOperation) (s : OrderStatus)
    (db db' : Db)
    → write_report pk given id o s db ≡ (ok r, db')
    → (r ≡ owned given o.work_order pk) × (db' ≡ finish_operation pk o s r id db)
unfolding write_report
write_report-ok pk given r id o s db db' e =
    let kept : r ≡ owned given o.work_order pk = ground arith in (kept, rw kept (ground arith))

report_body-found :
    (pk : ℕ) (given r : ProductionReport) (id : ℕ) (db db' : Db)
    → report_body pk given id db ≡ (ok r, db')
    → (o : WorkOrderOperation) × (s : OrderStatus) × (lookup pk db.operations ≡ some o)
      × (check_report pk given id o s db ≡ (ok r, db'))
unfolding report_body operation_at status_at
report_body-found pk given r id db db' e = elim (Option-cases (lookup pk db.operations)) [
  | inl n ↦ ground (arith, n)
  | inr (o, f) ↦ elim (Option-cases (lookup o.work_order db.statuses)) [
    | inl n ↦ ground (arith, f, n)
    | inr (s, g) ↦ (o, s, f, ground (arith, f, g))
  ]
]

report_body-Reported :
    (pk : ℕ) (given r : ProductionReport) (id : ℕ) (db db' : Db)
    → report_body pk given id db ≡ (ok r, db')
    → Reported pk given id db r db'
report_body-Reported pk given r id db db' e =
    let (o, s, found, checked) = report_body-found pk given r id db db' e in
    let (reportable, positive, some_value, wrote) =
      check_report-ok pk given r id o s db db' checked in
    let (stored, written) = write_report-ok pk given r id o s db db' wrote in
    record {
      old = o;
      order = s;
      found = found;
      reportable = reportable;
      values = (positive, some_value);
      stored = stored;
      written = written;
    }

report-IsSound :
    (pk : ℕ) (given : ProductionReport) (id : ℕ) (db : Db)
    → IsSound db
    → IsSound (report_work_order_operation pk given id db).1
unfolding report_work_order_operation
report-IsSound pk given id db h = by_result (report_body pk given id db) refl
  where
    by_result :
        (p : Result Error ProductionReport × Db)
        → report_body pk given id db ≡ p
        → IsSound (roll_back db p).1
    by_result (err x, db') e = h
    by_result (ok r, db') e =
        let w = report_body-Reported pk given r id db db' e in
        rw (w.written) (finish_operation-IsSound pk w.old w.order r id db h)

-- One call of the service; a report comes with the id that the table gives it.
pub data Call : Type 0 where
  advance : ℕ → Text → Text → Call
  report : ℕ → ProductionReport → ℕ → Call

unfoldable pub step : Call → Db → Db
step (advance pk action now) db = (advance_work_order_operation pk action now db).1
step (report pk given id) db = (report_work_order_operation pk given id db).1

unfoldable pub produce : List Call → Db → Db
produce [] db = db
produce (c ∷ cs) db = produce cs (step c db)

step-IsSound : (c : Call) (db : Db) → IsSound db → IsSound (step c db)
unfolding step
step-IsSound (advance pk action now) db h = advance-IsSound pk action now db h
step-IsSound (report pk given id) db h = report-IsSound pk given id db h

-- From tables of which it holds, after any sequence of calls, refused ones included: each operation
-- in setup, running or interrupted has a start time, and its order exists and is neither planned nor
-- released.
pub produce-IsSound : (cs : List Call) (db : Db) → IsSound db → IsSound (produce cs db)
unfolding produce
produce-IsSound [] db h = h
produce-IsSound (c ∷ cs) db h = produce-IsSound cs (step c db) (step-IsSound c db h)
