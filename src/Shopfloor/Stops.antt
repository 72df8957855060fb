-- ===== src/Shopfloor/Stops.antt =====
-- The open stops of a machine, and what the services of the shop floor do to them.
use mrp_django.Inventory.Model.{type_eq}
use mrp_django.Prelude.{
  ==_iff, >>=-Preserves, Action, Bool-cases, List, Option, Preserves, Result, Text, [], after_bind,
  arith, atomic-Preserves, codes, err, false, guarded_step, if◌then◌else◌, inl, inr, lookup, modify,
  nat_eq, none, not, ok, option_eq, or_raise, or_raise-Preserves, pair_eq, pure, raise_if, refl,
  some, suc, text_eq, ℕ, ◌++◌, ◌+◌, ◌==◌, ◌>>=◌, ◌>>◌, ◌∷◌, ◌≡◌, ◌≤◌,
}
use mrp_django.Production.Operations.{
  Db, Error, WorkOrderOperation, advance_work_order_operation, is_active, operation_at,
}
use mrp_django.Shopfloor.Machines.{
  DowntimeEvent, Floor, FloorAct, Machine, act_on_found, already_stopped, assign, create_downtime,
  event_on, has_open, interrupt_active, interrupt_current, invalid_action, is_open_on, is_other,
  lifted, machine_at, machine_missing, machine_operation_action, move_machine, on_production,
  other_operation, other_work_center, reason_of_other_plant, save_machine, start_downtime,
  start_found, status_of_action, stop_machine, stop_now,
}

unfoldable pub open_count : ℕ → List DowntimeEvent → ℕ
open_count k [] = 0
open_count k (d ∷ ds) = let rest = open_count k ds in if is_open_on k d then suc rest else rest

-- `uq_machine_open_downtime`
unfoldable pub OneStop : List DowntimeEvent → Type 0
OneStop ds = (k : ℕ) → open_count k ds ≤ 1

pub open_count-snoc :
    (k : ℕ) (ds : List DowntimeEvent) (d : DowntimeEvent)
    → open_count k (ds ++ d ∷ []) ≡ open_count k ds + (if is_open_on k d then 1 else 0)
unfolding open_count
open_count-snoc k [] d = ground arith
open_count-snoc k (e ∷ ds) d = ground (arith, open_count-snoc k ds d)

pub has_open-open_count :
    (k : ℕ) (ds : List DowntimeEvent) → has_open k ds ≡ not (open_count k ds == 0)
unfolding open_count has_open
has_open-open_count k [] = refl
has_open-open_count k (d ∷ ds) =
    ground (arith, has_open-open_count k ds, ==_iff (open_count k ds) 0)

-- A stop for a machine that has no open stop.
pub create-OneStop :
    (k : ℕ) (ds : List DowntimeEvent) (d : DowntimeEvent)
    → d.machine ≡ k
    → has_open k ds ≡ false
    → OneStop ds
    → OneStop (ds ++ d ∷ [])
unfolding OneStop is_open_on
create-OneStop k ds d of n one j = ground (
  arith,
  open_count-snoc j ds d,
  has_open-open_count k ds,
  ==_iff (open_count k ds) 0,
  ==_iff d.machine j,
  one j,
)

module _ (Q : List DowntimeEvent → Type 0) where
  -- What holds of the stops.
  abbrev OfStops : Floor → Type 0
  OfStops f = Q f.downtimes

  on_production-Preserves :
      {A : Type 0} (m : Action Error Db A) → Preserves OfStops (on_production m)
  on_production-Preserves {A} m f h = by_result (m f.production)
    where
      by_result : (p : Result Error A × Db) → OfStops (lifted f p).1
      by_result (ok a, t) = h
      by_result (err x, t) = h

  machine_at-Preserves : (pk : ℕ) → Preserves OfStops (machine_at pk)
  unfolding machine_at
  machine_at-Preserves pk f h =
      or_raise-Preserves OfStops (lookup pk f.machines) machine_missing f h

  interrupt_active-Preserves :
      (pk : ℕ) (stamp : Text) (o : WorkOrderOperation)
      → Preserves OfStops (interrupt_active pk stamp o)
  unfolding interrupt_active
  interrupt_active-Preserves pk stamp o f h = elim (Bool-cases (is_active o.status)) [
    | inl t ↦ rw t (
        >>=-Preserves OfStops
          (on_production (advance_work_order_operation pk (codes "INTERRUPT") stamp)) (λ _. pure tt)
          (on_production-Preserves (advance_work_order_operation pk (codes "INTERRUPT") stamp))
          (λ _ g q. q) f h)
    | inr n ↦ rw n h
  ]

  interrupt_current-Preserves :
      (o : Option ℕ) (stamp : Text) → Preserves OfStops (interrupt_current o stamp)
  unfolding interrupt_current
  interrupt_current-Preserves none stamp = λ f h. h
  interrupt_current-Preserves (some pk) stamp =
      >>=-Preserves OfStops (on_production (operation_at pk)) (interrupt_active pk stamp)
        (on_production-Preserves (operation_at pk)) (interrupt_active-Preserves pk stamp)

abbrev pub FloorFine : Floor → Type 0
FloorFine f = OneStop f.downtimes

move_machine-Preserves :
    (pk op : ℕ) (action : Text) (now : ℕ) (stamp : Text) (m : Machine)
    → Preserves FloorFine (move_machine pk op action now stamp m)
unfolding move_machine assign save_machine
move_machine-Preserves pk op action now stamp m =
    let move = on_production (advance_work_order_operation op action stamp) in
    >>=-Preserves FloorFine (or_raise (status_of_action action) invalid_action)
      (λ s. move >> modify (assign pk op s now m))
      (or_raise-Preserves FloorFine (status_of_action action) invalid_action)
      (λ s.
        >>=-Preserves FloorFine move (λ _. modify (assign pk op s now m))
          (on_production-Preserves OneStop (advance_work_order_operation op action stamp))
          (λ _ g q. q))

act_on_found-Preserves :
    (pk op : ℕ) (action : Text) (now : ℕ) (stamp : Text) (m : Machine)
    → Preserves FloorFine (act_on_found pk op action now stamp m)
unfolding act_on_found
act_on_found-Preserves pk op action now stamp m f h =
    let rest = move_machine pk op action now stamp m in
    guarded_step FloorFine (not (lookup op f.work_centers == some m.work_center)) other_work_center
      (raise_if (is_other m.current_operation op) other_operation >> rest) f h
      (λ _.
        guarded_step FloorFine (is_other m.current_operation op) other_operation rest f h
          (λ _. move_machine-Preserves pk op action now stamp m f h))

pub machine_operation_action-Preserves :
    (pk op : ℕ) (action : Text) (now : ℕ) (stamp : Text)
    → Preserves FloorFine (machine_operation_action pk op action now stamp)
unfolding machine_operation_action
machine_operation_action-Preserves pk op action now stamp =
    atomic-Preserves FloorFine (machine_at pk >>= act_on_found pk op action now stamp) (
      >>=-Preserves FloorFine (machine_at pk) (act_on_found pk op action now stamp)
        (machine_at-Preserves OneStop pk) (act_on_found-Preserves pk op action now stamp))

stop_now-FloorFine :
    (pk : ℕ) (reason : ℕ × Text) (notes : Text) (now : ℕ) (stamp : Text) (m : Machine) (f : Floor)
    → has_open pk f.downtimes ≡ false
    → FloorFine f
    → FloorFine (stop_now pk reason notes now stamp m f).1
unfolding stop_now stop_machine save_machine create_downtime event_on
stop_now-FloorFine pk reason notes now stamp m f none_open h =
    let NoneOpen : List DowntimeEvent → Type 0 = λ ds. (has_open pk ds ≡ false) × OneStop ds in
    after_bind FloorFine (OfStops NoneOpen) (interrupt_current m.current_operation stamp)
      (λ _. modify (stop_machine pk m reason notes now)) f
      (interrupt_current-Preserves NoneOpen m.current_operation stamp f (none_open, h)) (λ g q. q.1)
      (λ _ g q. create-OneStop pk g.downtimes _ refl q.0 q.1)

start_found-Preserves :
    (pk : ℕ) (reason : ℕ × Text) (notes : Text) (now : ℕ) (stamp : Text) (m : Machine)
    → Preserves FloorFine (start_found pk reason notes now stamp m)
unfolding start_found
start_found-Preserves pk reason notes now stamp m f h =
    let rest = stop_now pk reason notes now stamp m in
    let guarded : FloorAct (Unit {0}) =
      λ g. (raise_if (has_open pk g.downtimes) already_stopped >> rest) g in
    guarded_step FloorFine (not (reason.0 == m.plant)) reason_of_other_plant guarded f h (λ _.
      guarded_step FloorFine (has_open pk f.downtimes) already_stopped rest f h
        (λ none_open. stop_now-FloorFine pk reason notes now stamp m f none_open h))

pub start_downtime-Preserves :
    (pk : ℕ) (reason : ℕ × Text) (notes : Text) (now : ℕ) (stamp : Text)
    → Preserves FloorFine (start_downtime pk reason notes now stamp)
unfolding start_downtime
start_downtime-Preserves pk reason notes now stamp =
    atomic-Preserves FloorFine (machine_at pk >>= start_found pk reason notes now stamp) (
      >>=-Preserves FloorFine (machine_at pk) (start_found pk reason notes now stamp)
        (machine_at-Preserves OneStop pk) (start_found-Preserves pk reason notes now stamp))
