-- ===== src/Production/Advance.antt =====
-- The state machine of an operation, and the work order that it belongs to.
use mrp_django.Inventory.Model.{type_eq}
use mrp_django.Prelude.{
  Result, Text, ap, arith, err, false, if◌then◌else◌, inl, inr, lookup, lookup-insert, nat_eq, ok,
  option_eq, pair_eq, refl, some, text_eq, true, ℕ, ◌&&◌, ◌==◌, ◌∙◌, ◌≡◌, ◌≢◌, ◌⊎◌,
}
use mrp_django.Production.Moves.{Moves, Writes, Written, advance_work_order_operation-Writes}
use mrp_django.Production.Operations.{
  Db, Error, OperationStatus, OrderStatus, WorkOrderOperation, advance_work_order_operation,
  is_active, is_open, is_released, moved, order_started, released, running, setup, start_order,
  upper,
}

-- What a successful advance has found and what it leaves.
pub record Advanced (pk : ℕ) (action : Text) (db : Db) (o : WorkOrderOperation) (db' : Db)
    : Type 0 where
  pub old : WorkOrderOperation
  pub order : OrderStatus
  pub target : OperationStatus
  pub found : lookup pk db.operations ≡ some old
  pub found_order : lookup old.work_order db.statuses ≡ some order
  pub order_open : (order ≡ released) ⊎ (order ≡ order_started)
  pub move : Moves (upper action) old.status target
  pub status : o.status ≡ target
  pub work_order : o.work_order ≡ old.work_order
  pub sequence : o.sequence ≡ old.sequence
  pub end_kept : o.has_actual_end ≡ old.has_actual_end
  pub started : (target ≡ setup) ⊎ (target ≡ running) → o.has_actual_start ≡ true
  pub not_started : target ≢ setup → target ≢ running → o.has_actual_start ≡ old.has_actual_start
  pub operations :
      (k : ℕ) → lookup k db'.operations ≡ (if pk == k then some o else lookup k db.operations)
  pub order_starts :
      order ≡ released
      → (target ≡ setup) ⊎ (target ≡ running)
      → (k : ℕ)
      → lookup k db'.statuses
        ≡ (if old.work_order == k then some order_started else lookup k db.statuses)
  pub order_underway : order ≡ order_started → db'.statuses ≡ db.statuses
  pub order_waits : target ≢ setup → target ≢ running → db'.statuses ≡ db.statuses
  pub reports : db'.reports ≡ db.reports

is_open-cases : (s : OrderStatus) → is_open s ≡ true → (s ≡ released) ⊎ (s ≡ order_started)
is_open-cases released e = inl refl
is_open-cases order_started e = inr refl
is_open-cases s e = cc

is_active-lem : (t : OperationStatus) → (t ≡ setup) ⊎ (t ≡ running) → is_active t ≡ true
is_active-lem t (inl e) = rw e refl
is_active-lem t (inr e) = rw e refl

is_active-else : (t : OperationStatus) → t ≢ setup → t ≢ running → is_active t ≡ false
is_active-else setup n m = absurd (n refl)
is_active-else running n m = absurd (m refl)
is_active-else t n m = refl

Written-Advanced :
    (pk : ℕ) (action : Text) (db : Db) (o : WorkOrderOperation) (db' : Db)
    → Written pk action db o db'
    → Advanced pk action db o db'
unfolding moved start_order
Written-Advanced pk action db o db' w =
    let old = w.old in
    let target = w.target in
    record {
      old = old;
      order = w.order;
      target = target;
      found = w.found;
      found_order = w.found_order;
      order_open = is_open-cases w.order w.order_open;
      move = w.move;
      status = ap (λ (p : WorkOrderOperation). p.status) w.is_moved;
      work_order = ap (λ (p : WorkOrderOperation). p.work_order) w.is_moved;
      sequence = ap (λ (p : WorkOrderOperation). p.sequence) w.is_moved;
      end_kept = ap (λ (p : WorkOrderOperation). p.has_actual_end) w.is_moved;
      started = λ h.
          ap (λ (p : WorkOrderOperation). p.has_actual_start) w.is_moved
          ∙ ground (arith, is_active-lem target h);
      not_started = λ n m.
          ap (λ (p : WorkOrderOperation). p.has_actual_start) w.is_moved
          ∙ ground (arith, is_active-else target n m);
      operations = λ k. ap (lookup k) w.operations ∙ lookup-insert pk k o db.operations;
      order_starts = λ r h k.
          let both : (is_released w.order && is_active target) ≡ true =
            ground (arith, r, is_active-lem target h) in
          ap (lookup k) (w.statuses ∙ ground (arith, both))
          ∙ lookup-insert old.work_order k order_started db.statuses;
      order_underway = λ r. w.statuses ∙ ground (arith, r);
      order_waits = λ n m. w.statuses ∙ ground (arith, is_active-else target n m);
      reports = w.reports;
    }

-- Every outcome of a call.
abbrev pub Advances : ℕ → Text → Db → Result Error WorkOrderOperation × Db → Type 0
Advances pk action db (ok o, db') = Advanced pk action db o db'
Advances pk action db (err e, db') = db' ≡ db

-- A refused action changes nothing. One that succeeds is on an order that is released or in
-- progress and, in capitals, names one of the ten moves of the state machine; it stores the
-- operation with the status of that move, started if that is SETUP or RUN and otherwise unchanged,
-- and no other operation changes; a released order becomes in progress exactly when the move is to
-- SETUP or RUN, no other order changes, and no report is stored.
pub advance_work_order_operation-Advances :
    (pk : ℕ) (action now : Text) (db : Db)
    → Advances pk action db (advance_work_order_operation pk action now db)
advance_work_order_operation-Advances pk action now db =
    by_result (advance_work_order_operation pk action now db)
      (advance_work_order_operation-Writes pk action now db)
  where
    by_result :
        (p : Result Error WorkOrderOperation × Db) → Writes pk action db p → Advances pk action db p
    by_result (err x, db') same = same
    by_result (ok o, db') w = Written-Advanced pk action db o db' w
