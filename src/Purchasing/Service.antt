-- ===== src/Purchasing/Service.antt =====
-- apps/purchasing/services.py: `receive_purchase_order_line`, statement by statement, over the rows of
-- apps/purchasing/models.py. Supplier, dates, prices, lot numbers and notes are only stored, and left
-- out. `first` is what the query before the locks saw of the receipts.
use mrp_django.Common.{DomainEvent, append_domain_event, show}
use mrp_django.Inventory.Model.{
  Db as StockDb, Error as StockError, InventoryTransaction, Location, purchase_receipt, type_eq,
}
use mrp_django.Inventory.Service.{post_inventory_transaction}
use mrp_django.Prelude.{
  Action, Bool, List, Option, Result, Table, Text, [], atomic, codes, eqb_ℤ, err, false, get,
  if◌then◌else◌, insert, leb_ℤ, lookup, ltb_ℤ, modify, nat_eq, none, not, ok, option_eq, or_raise,
  pair_eq, pos, pure, raise_if, some, text_eq, true, ℕ, ℤ, ◌&&◌, ◌++◌, ◌+ℤ◌, ◌-ℤ◌, ◌==◌, ◌>>=◌,
  ◌>>◌, ◌||◌, ◌∷◌,
}

pub data OrderStatus : Type 0 where
  draft released partial completed cancelled : OrderStatus

pub record PurchaseOrder : Type 0 where
  pub plant : ℕ
  pub status : OrderStatus

pub record PurchaseOrderLine : Type 0 where
  pub purchase_order : ℕ
  pub item : ℕ
  pub quantity : ℤ
  pub received_quantity : ℤ

pub record GoodsReceipt : Type 0 where
  pub line : ℕ
  pub receipt_number : Text
  pub idempotency_key : Text
  pub quantity : ℤ
  pub destination : ℕ
  pub inventory_transaction : InventoryTransaction

pub record Db : Type 0 where
  pub stock : StockDb
  pub orders : Table ℕ PurchaseOrder
  pub lines : Table ℕ PurchaseOrderLine
  pub receipts : List GoodsReceipt
  pub events : List DomainEvent

pub data Error : Type 0 where
  key_required key_reused missing_row not_receivable other_plant quantity_not_positive : Error
  exceeds_open integrity_error : Error
  stock_error : StockError → Error

abbrev pub Receive : Type 0 → Type 0
Receive = Action Error Db

-- The arguments of `receive_purchase_order_line`.
pub record Request : Type 0 where
  pub line : ℕ
  pub quantity : ℤ
  pub destination : Location
  pub receipt_number : Text
  pub idempotency_key : Text

unfoldable pub find_receipt : Text → List GoodsReceipt → Option GoodsReceipt
find_receipt k [] = none
find_receipt k (r ∷ rs) = if r.idempotency_key == k then some r else find_receipt k rs

-- `_validate_receipt_replay`: no field differs.
unfoldable pub same_receipt : GoodsReceipt → Request → Bool
same_receipt old new =
    old.line == new.line
    && eqb_ℤ old.quantity new.quantity
    && old.destination == new.destination.pk
    && old.receipt_number == new.receipt_number

unfoldable pub replay : GoodsReceipt → Request → Receive (GoodsReceipt × Bool)
replay old new = do raise_if (not (same_receipt old new)) key_reused; pure (old, false)

abbrev pub is_receivable : OrderStatus → Bool
is_receivable released = true
is_receivable partial = true
is_receivable _ = false

-- A stock operation as a part of the transaction.
abbrev pub lift_result : {A : Type 0} → Db → Result StockError A × StockDb → Result Error A × Db
lift_result db (ok a, s) = (ok a, record db { stock = s })
lift_result db (err e, s) = (err (stock_error e), record db { stock = s })

unfoldable pub on_stock : {A : Type 0} → Action StockError StockDb A → Receive A
on_stock m db = lift_result db (m db.stock)

unfoldable pub receipt_movement : Request → PurchaseOrderLine → InventoryTransaction
receipt_movement call line = record {
  transaction_type = purchase_receipt;
  item = line.item;
  from_location = none;
  to_location = some call.destination;
  quantity = call.quantity;
  reference_type = codes "PURCHASE_ORDER_LINE";
  reference_id = show call.line;
  idempotency_key = some (codes "purchase-receipt:" ++ call.idempotency_key);
}

-- The unique constraints of `GoodsReceipt`: the key, and the number within its line.
unfoldable pub clashes : GoodsReceipt → List GoodsReceipt → Bool
clashes r [] = false
clashes r (s ∷ rs) =
    r.idempotency_key == s.idempotency_key
    || (r.line == s.line && r.receipt_number == s.receipt_number)
    || clashes r rs

unfoldable pub create_receipt : GoodsReceipt → Receive (Unit {0})
create_receipt r db =
    if clashes r db.receipts
    then (err integrity_error, db)
    else (ok tt, record db { receipts = r ∷ db.receipts })

-- `locked_line.received_quantity += quantity; locked_line.save(...)`
unfoldable pub save_received : ℕ → PurchaseOrderLine → ℤ → Db → Db
save_received pk line q db = record db {
  lines = insert pk (record line { received_quantity = line.received_quantity +ℤ q }) db.lines;
}

-- `order.lines.filter(received_quantity__lt=F("quantity")).exists()`
unfoldable pub has_open_line : ℕ → Table ℕ PurchaseOrderLine → Bool
has_open_line order [] = false
has_open_line order ((_, l) ∷ ls) =
    (l.purchase_order == order && ltb_ℤ l.received_quantity l.quantity) || has_open_line order ls

unfoldable pub save_status : ℕ → PurchaseOrder → Db → Db
save_status pk order db = record db {
  orders =
      insert pk (record order { status = if has_open_line pk db.lines then partial else completed })
        db.orders;
}

unfoldable pub receipt_event : Request → ℕ → DomainEvent
receipt_event call order = record {
  idempotency_key = codes "event:purchase-receipt:" ++ call.idempotency_key;
  event_type = codes "PURCHASE_RECEIPT_POSTED";
  aggregate_type = codes "PURCHASE_ORDER";
  aggregate_id = show order;
}

unfoldable pub append_event : DomainEvent → Db → Db
append_event e db = record db { events = (append_domain_event e db.events).1 }

unfoldable pub new_receipt : Request → InventoryTransaction → GoodsReceipt
new_receipt call tx = record {
  line = call.line;
  receipt_number = call.receipt_number;
  idempotency_key = call.idempotency_key;
  quantity = call.quantity;
  destination = call.destination.pk;
  inventory_transaction = tx;
}

-- What follows the movement of the stock.
unfoldable pub record_receipt :
    Request
    → PurchaseOrderLine
    → PurchaseOrder
    → InventoryTransaction
    → Receive (GoodsReceipt × Bool)
record_receipt call line order tx = do
  create_receipt (new_receipt call tx)
  modify (save_received call.line line call.quantity)
  modify (save_status line.purchase_order order)
  modify (append_event (receipt_event call line.purchase_order))
  pure (new_receipt call tx, true)

unfoldable pub receive_new :
    Request → PurchaseOrderLine → PurchaseOrder → Receive (GoodsReceipt × Bool)
receive_new call line order = do
  raise_if (not (is_receivable order.status)) not_receivable
  raise_if (not (call.destination.plant == order.plant)) other_plant
  raise_if (leb_ℤ call.quantity (pos 0)) quantity_not_positive
  raise_if (ltb_ℤ (line.quantity -ℤ line.received_quantity) call.quantity) exceeds_open
  tx ← on_stock (post_inventory_transaction (receipt_movement call line))
  record_receipt call line order tx

unfoldable pub replay_or_receive :
    Request
    → PurchaseOrderLine
    → PurchaseOrder
    → Option GoodsReceipt
    → Receive (GoodsReceipt × Bool)
replay_or_receive call line order none = receive_new call line order
replay_or_receive call line order (some old) = replay old call

-- The rows are locked, and the receipts are asked for once more.
unfoldable pub receive_locked : Request → Receive (GoodsReceipt × Bool)
receive_locked call = do
  db ← get
  line ← or_raise (lookup call.line db.lines) missing_row
  order ← or_raise (lookup line.purchase_order db.orders) missing_row
  replay_or_receive call line order (find_receipt call.idempotency_key db.receipts)

unfoldable pub replay_or_lock : Request → Option GoodsReceipt → Receive (GoodsReceipt × Bool)
replay_or_lock call none = receive_locked call
replay_or_lock call (some old) = replay old call

unfoldable pub receive_body : List GoodsReceipt → Request → Receive (GoodsReceipt × Bool)
receive_body first call = do
  raise_if (call.idempotency_key == []) key_required
  replay_or_lock call (find_receipt call.idempotency_key first)

unfoldable pub receive_seeing : List GoodsReceipt → Request → Receive (GoodsReceipt × Bool)
receive_seeing first call = atomic (receive_body first call)

-- With no other session committing meanwhile.
unfoldable pub receive_purchase_order_line : Request → Receive (GoodsReceipt × Bool)
receive_purchase_order_line call db = receive_seeing db.receipts call db
