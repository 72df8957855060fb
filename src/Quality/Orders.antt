-- ===== src/Quality/Orders.antt =====
-- What the operations on an inspection order do, and that the quantities stay balanced.
use mrp_django.Common.{show}
use mrp_django.Inventory.Model.{type_eq}
use mrp_django.Prelude.{
  >>=-ok, Text, arith, atomic-ok, insert, lookup, nat_eq, not, ok, option_eq, pair_eq, pure,
  raise_if, raise_if-ok, refl, some, text_eq, ℕ, ◌==◌, ◌>>=◌, ◌∙◌, ◌≡◌,
}
use mrp_django.Quality.Model.{
  Db, InspectionOrder, Status, approved, cancelled, in_progress, not_startable, order_open, partial,
  refused, status_code,
}
use mrp_django.Quality.Service.{
  begin_order, create_event, event_of, order_at, save_order, start_found, start_inspection,
  update_lot,
}
use mrp_django.Quality.Writes.{
  IsBalanced, IsSound, Same-IsSound, create_event-Same, order_at-ok, save_order-IsSound,
  update_lot-Same,
}
use mrp_django.Traceability.Lots.Service.{inspection}

-- The order has changed, and nothing else that has quantities.
pub record Rewritten (pk : ℕ) (old new : InspectionOrder) (db db' : Db) : Type 0 where
  pub found : lookup pk db.orders ≡ some old
  pub orders : db'.orders ≡ insert pk new db.orders
  pub ncrs : db'.ncrs ≡ db.ncrs
  pub dispositions : db'.dispositions ≡ db.dispositions

pub Rewritten-IsSound :
    (pk : ℕ) (old new : InspectionOrder) (db db' : Db)
    → Rewritten pk old new db db'
    → (IsBalanced (some old) → IsBalanced (some new))
    → IsSound db
    → IsSound db'
unfolding save_order
Rewritten-IsSound pk old new db db' r keep h =
    let balanced : IsBalanced (some old) = rw r.found at (h.orders pk) in
    Same-IsSound (save_order pk new db) db'
      (record { orders = r.orders; ncrs = r.ncrs; dispositions = r.dispositions })
      (save_order-IsSound pk new db (keep balanced) h)

status_code-open : (s : Status) → status_code s ≡ 0 → s ≡ order_open
status_code-open order_open e = refl
status_code-open in_progress e = cc
status_code-open approved e = cc
status_code-open partial e = cc
status_code-open refused e = cc
status_code-open cancelled e = cc

begin_order-Rewritten :
    (pk : ℕ) (now : Text) (old o : InspectionOrder) (db db' : Db)
    → lookup pk db.orders ≡ some old
    → begin_order pk old now db ≡ (ok o, db')
    → (o ≡ record old { status = in_progress }) × Rewritten pk old o db db'
unfolding begin_order save_order
begin_order-Rewritten pk now old o db db' found e =
    let started : InspectionOrder = record old { status = in_progress } in
    let mid : Db = save_order pk started db in
    let ev = event_of "quality.inspection.started" "InspectionOrder" (show pk) now in
    let (_, t, e1, r1) =
      >>=-ok (create_event ev) (λ _. pure started) (update_lot old.lot inspection mid) e in
    let (c, lots) = create_event-Same ev _ t e1 in
    let u = update_lot-Same old.lot inspection mid in
    let same : started ≡ o = ground arith in
    let last : db' ≡ t = ground arith in
    (
      ground arith,
      record {
        found = found;
        orders = rw (last, ← same) (c.orders ∙ u.orders);
        ncrs = rw last (c.ncrs ∙ u.ncrs);
        dispositions = rw last (c.dispositions ∙ u.dispositions);
      },
    )

-- A start that succeeds has found an order that is open.
pub start_inspection-Rewritten :
    (pk : ℕ) (now : Text) (o : InspectionOrder) (db db' : Db)
    → start_inspection pk now db ≡ (ok o, db')
    → (old : InspectionOrder) × (old.status ≡ order_open)
      × (o ≡ record old { status = in_progress })
      × Rewritten pk old o db db'
unfolding start_inspection start_found
start_inspection-Rewritten pk now o db db' e =
    let body = atomic-ok (order_at pk >>= start_found pk now) db e in
    let (old, s, e1, r1) = >>=-ok (order_at pk) (start_found pk now) db body in
    let (found, same) = order_at-ok pk old db s e1 in
    let (_, t, e2, r2) =
      >>=-ok (raise_if (not (status_code old.status == 0)) not_startable)
        (λ _. begin_order pk old now) s r1 in
    let (test, same2) = raise_if-ok _ not_startable s t e2 in
    let (is_started, w) =
      begin_order-Rewritten pk now old o db db' found (rw (same2, same) at r2) in
    (old, status_code-open old.status (ground (arith, test)), is_started, w)
