-- ===== src/Production/Moves.antt =====
-- The moves of an operation, and the steps of `advance_work_order_operation`.
use mrp_django.Inventory.Model.{type_eq}
use mrp_django.Prelude.{
  ==_iff, Bool, Option, Option-cases, Result, Text, arith, codes, err, false, if◌then◌else◌, inl,
  inr, insert, lookup, nat_eq, none, not, ok, option_eq, pair_eq, refl, roll_back, some, text_eq,
  true, ℕ, ◌&&◌, ◌||◌, ◌≡◌,
}
use mrp_django.Production.Operations.{
  Db, Error, OperationStatus, OrderStatus, WorkOrderOperation, advance_body,
  advance_work_order_operation, allows, append_event, interrupted, is_active, is_open, is_released,
  move_operation, moved, operation_at, order_started, pending, planned, ready, released, running,
  save_operation, setup, start_order, status_at, target_of, upper,
}

-- The moves of an operation, each with its action.
pub data Moves : Text → OperationStatus → OperationStatus → Type 0 where
  prepare : Moves (codes "READY") pending ready
  resume : Moves (codes "READY") interrupted ready
  set_up : Moves (codes "SETUP") pending setup
  set_up_ready : Moves (codes "SETUP") ready setup
  set_up_again : Moves (codes "SETUP") interrupted setup
  run_ready : Moves (codes "RUN") ready running
  run_set_up : Moves (codes "RUN") setup running
  run_again : Moves (codes "RUN") interrupted running
  interrupt_setup : Moves (codes "INTERRUPT") setup interrupted
  interrupt_run : Moves (codes "INTERRUPT") running interrupted

name_of : OperationStatus → Text
name_of ready = codes "READY"
name_of setup = codes "SETUP"
name_of running = codes "RUN"
name_of _ = codes "INTERRUPT"

allows-Moves :
    (target from : OperationStatus) → allows target from ≡ true → Moves (name_of target) from target
unfolding name_of
allows-Moves ready pending e = prepare
allows-Moves ready interrupted e = resume
allows-Moves setup pending e = set_up
allows-Moves setup ready e = set_up_ready
allows-Moves setup interrupted e = set_up_again
allows-Moves running ready e = run_ready
allows-Moves running setup e = run_set_up
allows-Moves running interrupted e = run_again
allows-Moves interrupted setup e = interrupt_setup
allows-Moves interrupted running e = interrupt_run
allows-Moves target from e = cc

target_of-name_of :
    (action : Text) (target : OperationStatus)
    → target_of action ≡ some target
    → action ≡ name_of target
unfolding target_of name_of
target_of-name_of action target e = ground (
  arith,
  ==_iff action (codes "READY"),
  ==_iff action (codes "SETUP"),
  ==_iff action (codes "RUN"),
  ==_iff action (codes "INTERRUPT"),
)

abbrev pub is_underway : OperationStatus → Bool
is_underway setup = true
is_underway running = true
is_underway interrupted = true
is_underway _ = false

abbrev pub has_begun : Option OrderStatus → Bool
has_begun none = false
has_begun (some planned) = false
has_begun (some released) = false
has_begun (some _) = true

-- An operation that is under way has been started, and so has its order.
abbrev pub is_fine : Option OrderStatus → OperationStatus → Bool → Bool
is_fine s st b = not (is_underway st) || (b && has_begun s)

pub fine_moves :
    (s : OrderStatus) (from target : OperationStatus) (b : Bool)
    → is_open s ≡ true
    → allows target from ≡ true
    → is_fine (some s) from b ≡ true
    → is_fine
        (some (if is_released s && is_active target then order_started else s))
        target
        (b || is_active target)
      ≡ true
fine_moves s from target b o a f = ground arith

-- The writes of a successful advance.
pub record Written (pk : ℕ) (action : Text) (db : Db) (o : WorkOrderOperation) (db' : Db)
    : Type 0 where
  pub old : WorkOrderOperation
  pub order : OrderStatus
  pub target : OperationStatus
  pub found : lookup pk db.operations ≡ some old
  pub found_order : lookup old.work_order db.statuses ≡ some order
  pub order_open : is_open order ≡ true
  pub permitted : allows target old.status ≡ true
  pub move : Moves (upper action) old.status target
  pub is_moved : o ≡ moved old target
  pub operations : db'.operations ≡ insert pk o db.operations
  pub statuses :
      db'.statuses
      ≡ (start_order (is_released order && is_active target) old.work_order db).statuses
  pub reports : db'.reports ≡ db.reports

module _ (pk : ℕ) (action now : Text) (o : WorkOrderOperation) (db db' : Db) where
  move_operation-Written :
      (old : WorkOrderOperation) (order : OrderStatus) (target : OperationStatus)
      → lookup pk db.operations ≡ some old
      → lookup old.work_order db.statuses ≡ some order
      → is_open order ≡ true
      → target_of (upper action) ≡ some target
      → move_operation pk old order target (upper action) now db ≡ (ok o, db')
      → Written pk action db o db'
  unfolding move_operation start_order save_operation append_event moved
  move_operation-Written old order target found found_order opened named e =
      let permitted : allows target old.status ≡ true = ground arith in
      let wrote : o ≡ moved old target = ground arith in
      record {
        old = old;
        order = order;
        target = target;
        found = found;
        found_order = found_order;
        order_open = opened;
        permitted = permitted;
        move =
            rw (target_of-name_of (upper action) target named)
              (allows-Moves target old.status permitted);
        is_moved = wrote;
        operations = rw wrote (ground arith);
        statuses = ground arith;
        reports = ground arith;
      }

  advance_body-Written : advance_body pk action now db ≡ (ok o, db') → Written pk action db o db'
  unfolding advance_body operation_at status_at
  advance_body-Written e = elim (Option-cases (lookup pk db.operations)) [
    | inl n ↦ ground (arith, n)
    | inr (old, f) ↦ elim (Option-cases (lookup old.work_order db.statuses)) [
      | inl n ↦ ground (arith, f, n)
      | inr (s, g) ↦ elim (Option-cases (target_of (upper action))) [
        | inl n ↦ ground (arith, f, g, n)
        | inr (target, h) ↦
            move_operation-Written old s target f g (ground (arith, f, g, h)) h
              (ground (arith, f, g, h))
      ]
    ]
  ]

abbrev pub Writes : ℕ → Text → Db → Result Error WorkOrderOperation × Db → Type 0
Writes pk action db (ok o, db') = Written pk action db o db'
Writes pk action db (err e, db') = db' ≡ db

pub advance_work_order_operation-Writes :
    (pk : ℕ) (action now : Text) (db : Db)
    → Writes pk action db (advance_work_order_operation pk action now db)
unfolding advance_work_order_operation
advance_work_order_operation-Writes pk action now db =
    by_result (advance_body pk action now db) refl
  where
    by_result :
        (p : Result Error WorkOrderOperation × Db)
        → advance_body pk action now db ≡ p
        → Writes pk action db (roll_back db p)
    by_result (err x, db') e = refl
    by_result (ok o, db') e = advance_body-Written pk action now o db db' e
