-- ===== src/Purchasing/Tests.antt =====
-- Runs of `receive_purchase_order_line`, and the theorems at a concrete receipt.
use mrp_django.Common.{append_domain_event, find_event, show}
use mrp_django.Inventory.Balances.{entry, on_hand_at}
use mrp_django.Inventory.Model.{
  available, decimal_fits, fields_fit, is_bad_transfer, not_positive, type_eq,
}
use mrp_django.Inventory.Service.{
  add_id, ensure_balance, ensure_balances, enter, enter_and_return, find_key, full_clean,
  involved_locations, lock_and_enter, locked_balances, move_stock, post_found,
  post_inventory_transaction, post_seeing, publish, put_in, require, row_at, save_and_move,
  save_on_hand, some_missing, take_out,
}
use mrp_django.Prelude.{
  [], arith, codes, false, insert, lookup, nat_eq, ok, option_eq, pair_eq, pos, refl, some, text_eq,
  true, ℕ, ◌+ℤ◌, ◌-ℤ◌, ◌∷◌, ◌≡◌,
}
use mrp_django.Purchasing.Lines.{IsSound, receipts_of, run, run-IsSound}
use mrp_django.Purchasing.Outcome.{Received, receive_seeing-Received}
use mrp_django.Purchasing.Replay.{receive_purchase_order_line-again}
use mrp_django.Purchasing.Service.{
  Db, GoodsReceipt, PurchaseOrder, PurchaseOrderLine, Request, append_event, clashes,
  create_receipt, find_receipt, has_open_line, new_receipt, on_stock, receipt_event,
  receipt_movement, receive_body, receive_locked, receive_new, receive_purchase_order_line,
  receive_seeing, record_receipt, released, replay_or_lock, replay_or_receive, save_received,
  save_status,
}
use mrp_django.Purchasing.Status.{Settled, receive_seeing-Settled, receive_seeing-stock}

abbrev order : PurchaseOrder
order = record { plant = 7; status = released }

-- 100.0000 ordered, 40.0000 received before.
abbrev line : PurchaseOrderLine
line = record {
  purchase_order = 3;
  item = 9;
  quantity = pos 1000000;
  received_quantity = pos 400000;
}

abbrev start : Db
start = record {
  stock = record { balances = []; transactions = [] };
  orders = (3, order) ∷ [];
  lines = (12, line) ∷ [];
  receipts = [];
  events = [];
}

abbrev call : Request
call = record {
  line = 12;
  quantity = pos 600000;
  destination = record { pk = 2; plant = 7 };
  receipt_number = codes "R-1";
  idempotency_key = codes "k";
}

abbrev receipt_row : GoodsReceipt
receipt_row = new_receipt call (receipt_movement call line)

abbrev after : Db
after = (receive_purchase_order_line call start).1

call-runs : receive_purchase_order_line call start ≡ (ok (receipt_row, true), after)
unfolding receive_purchase_order_line receive_seeing receive_body find_receipt replay_or_lock
    receive_locked replay_or_receive receive_new on_stock receipt_movement record_receipt
    create_receipt clashes new_receipt save_received save_status has_open_line append_event
    receipt_event append_domain_event find_event show post_inventory_transaction post_seeing
    post_found publish full_clean fields_fit decimal_fits not_positive is_bad_transfer save_and_move
    find_key move_stock involved_locations require add_id lock_and_enter locked_balances
    ensure_balances ensure_balance some_missing enter_and_return enter take_out put_in row_at
    save_on_hand lookup insert available ◌+ℤ◌ ◌-ℤ◌
call-runs = refl

receive_seeing-Received_example : Received [] call start receipt_row true after
unfolding receive_purchase_order_line
receive_seeing-Received_example =
    receive_seeing-Received [] call receipt_row true start after call-runs

receive_seeing-Settled_example :
    (l : PurchaseOrderLine) × (o : PurchaseOrder) × (lookup call.line start.lines ≡ some l)
    × Settled call after l.purchase_order o
unfolding receive_purchase_order_line
receive_seeing-Settled_example = receive_seeing-Settled [] call receipt_row start after call-runs

receive_seeing-stock_example :
    (l : PurchaseOrderLine) × (lookup call.line start.lines ≡ some l)
    × ((i m : ℕ)
        → on_hand_at after.stock i m
          ≡ on_hand_at start.stock i m +ℤ entry l.item (some call.destination) call.quantity i m)
unfolding receive_purchase_order_line find_key
receive_seeing-stock_example = receive_seeing-stock [] call receipt_row start after call-runs refl

receive_purchase_order_line-again_example :
    receive_purchase_order_line call after ≡ (ok (receipt_row, false), after)
receive_purchase_order_line-again_example =
    receive_purchase_order_line-again call receipt_row true start after call-runs

start-IsSound : IsSound (λ _. pos 400000) start
unfolding lookup receipts_of ◌+ℤ◌
start-IsSound k l found = record {
  accounted = ground arith;
  nonneg = ground arith;
  within = ground arith;
}

run-IsSound_example : IsSound (λ _. pos 400000) (run (([], call) ∷ ([], call) ∷ []) start)
run-IsSound_example =
    run-IsSound (λ _. pos 400000) (([], call) ∷ ([], call) ∷ []) start start-IsSound
