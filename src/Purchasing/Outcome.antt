-- ===== src/Purchasing/Outcome.antt =====
-- How a call of `receive_purchase_order_line` can end.
use mathlib.Core.List.{Memᴰ}
use mrp_django.Common.{DomainEvent, append_domain_event}
use mrp_django.Inventory.Model.{InventoryTransaction, purchase_receipt, type_eq}
use mrp_django.Inventory.Service.{post_inventory_transaction}
use mrp_django.Prelude.{
  ==_iff, Bool, List, ap, arith, codes, eqb_ℤ_iff, false, if◌then◌else◌, inl, inr, lookup,
  lookup-insert, nat_eq, none, ok, option_eq, pair_eq, pos, refl, some, text_eq, true, ℕ, ◌++◌,
  ◌+ℤ◌, ◌-ℤ◌, ◌<ℤ◌, ◌==◌, ◌↔◌, ◌∙◌, ◌∷◌, ◌≡◌, ◌≢◌, ◌≤ℤ◌, ◌⊎◌,
}
use mrp_django.Purchasing.Lines.{lines-Writes, receipts-Writes, updated}
use mrp_django.Purchasing.Service.{
  Db, GoodsReceipt, OrderStatus, PurchaseOrder, PurchaseOrderLine, Request, append_event, completed,
  find_receipt, is_receivable, new_receipt, partial, receipt_event, receipt_movement,
  receive_seeing, released, same_receipt, save_received, save_status,
}
use mrp_django.Purchasing.Status.{AllReceived, order_after, orders-Writes, status_iff, stock-Writes}
use mrp_django.Purchasing.Steps.{Writes, Written, found_again, receive_seeing-Written, wrote}
use mrp_django.Purchasing.Stored.{append_domain_event-Memᴰ, clashes-apart, find_receipt-some}

-- A receipt with the fields of the request.
pub record Carries (call : Request) (r : GoodsReceipt) : Type 0 where
  pub line : r.line ≡ call.line
  pub quantity : r.quantity ≡ call.quantity
  pub destination : r.destination ≡ call.destination.pk
  pub receipt_number : r.receipt_number ≡ call.receipt_number
  pub idempotency_key : r.idempotency_key ≡ call.idempotency_key

-- The movement of the stock that a receipt makes.
pub record Brings (call : Request) (line : PurchaseOrderLine) (m : InventoryTransaction)
    : Type 0 where
  pub kind : m.transaction_type ≡ purchase_receipt
  pub item : m.item ≡ line.item
  pub source : m.from_location ≡ none
  pub target : m.to_location ≡ some call.destination
  pub quantity : m.quantity ≡ call.quantity

-- A call that has received: what it read, what it tested and what it leaves.
pub record Recorded (call : Request) (db : Db) (r : GoodsReceipt) (db' : Db) : Type 0 where
  pub line : PurchaseOrderLine
  pub order : PurchaseOrder
  pub order' : PurchaseOrder
  pub movement : InventoryTransaction
  pub line_found : lookup call.line db.lines ≡ some line
  pub order_found : lookup line.purchase_order db.orders ≡ some order
  pub receivable : (order.status ≡ released) ⊎ (order.status ≡ partial)
  pub at_plant : call.destination.plant ≡ order.plant
  pub positive : pos 0 <ℤ call.quantity
  pub within : call.quantity ≤ℤ line.quantity -ℤ line.received_quantity
  pub new_row :
      (old : GoodsReceipt)
      → Memᴰ old db.receipts
      → (call.idempotency_key ≢ old.idempotency_key)
        × (call.line ≡ old.line → call.receipt_number ≢ old.receipt_number)
  pub carries : Carries call r
  pub brings : Brings call line movement
  pub moved : post_inventory_transaction movement db.stock ≡ (ok r.inventory_transaction, db'.stock)
  pub receipts : db'.receipts ≡ r ∷ db.receipts
  pub lines :
      (k : ℕ)
      → lookup k db'.lines ≡ (
          if call.line == k
          then some (record line { received_quantity = line.received_quantity +ℤ call.quantity })
          else lookup k db.lines)
  pub orders :
      (k : ℕ)
      → lookup k db'.orders ≡ (if line.purchase_order == k then some order' else lookup k db.orders)
  pub plant : order'.plant ≡ order.plant
  pub completed_iff : (order'.status ≡ completed) ↔ AllReceived line.purchase_order db'.lines
  pub partial_iff : (order'.status ≡ partial) ↔ ¬ AllReceived line.purchase_order db'.lines
  pub event :
      (e : DomainEvent) × Memᴰ e db'.events
      × (e.idempotency_key ≡ codes "event:purchase-receipt:" ++ call.idempotency_key)
  pub events_kept : (e : DomainEvent) → Memᴰ e db.events → Memᴰ e db'.events

pub data Received (first : List GoodsReceipt) (call : Request) (db : Db)
    : GoodsReceipt → Bool → Db → Type 0 where
  replayed :
      {r : GoodsReceipt} {b : Bool} {db' : Db}
      → b ≡ false
      → Memᴰ r first ⊎ Memᴰ r db.receipts
      → Carries call r
      → db' ≡ db
      → Received first call db r b db'
  recorded :
      {r : GoodsReceipt} {b : Bool} {db' : Db}
      → b ≡ true
      → Recorded call db r db'
      → Received first call db r b db'

is_receivable-cases : (s : OrderStatus) → is_receivable s ≡ true → (s ≡ released) ⊎ (s ≡ partial)
is_receivable-cases released e = inl refl
is_receivable-cases partial e = inr refl
is_receivable-cases s e = cc

same_receipt-Carries :
    (call : Request) (r : GoodsReceipt)
    → r.idempotency_key ≡ call.idempotency_key
    → same_receipt r call ≡ true
    → Carries call r
unfolding same_receipt
same_receipt-Carries call r key e = record {
  line = ground (arith, ==_iff r.line call.line);
  quantity = ground (arith, eqb_ℤ_iff r.quantity call.quantity);
  destination = ground (arith, ==_iff r.destination call.destination.pk);
  receipt_number = ground (arith, ==_iff r.receipt_number call.receipt_number);
  idempotency_key = key;
}

new_receipt-Carries :
    (call : Request) (tx : InventoryTransaction) → Carries call (new_receipt call tx)
unfolding new_receipt
new_receipt-Carries call tx = record {
  line = refl;
  quantity = refl;
  destination = refl;
  receipt_number = refl;
  idempotency_key = refl;
}

receipt_movement-Brings :
    (call : Request) (line : PurchaseOrderLine) → Brings call line (receipt_movement call line)
unfolding receipt_movement
receipt_movement-Brings call line = record {
  kind = refl;
  item = refl;
  source = refl;
  target = refl;
  quantity = refl;
}

module _ {call : Request} {db db' : Db} {r : GoodsReceipt} (w : Writes call db r db') where
  events-Writes :
      db'.events ≡ (append_domain_event (receipt_event call w.line.purchase_order) db.events).1
  unfolding save_received save_status append_event
  events-Writes = ap (λ (d : Db). d.events) w.written

  Writes-Recorded : Recorded call db r db'
  unfolding new_receipt receipt_event
  Writes-Recorded =
      let o = w.line.purchase_order in
      let (there, kept) = append_domain_event-Memᴰ (receipt_event call o) db.events in
      let both = status_iff o db'.lines (order_after w).status refl in
      record {
        line = w.line;
        order = w.order;
        order' = order_after w;
        movement = receipt_movement call w.line;
        line_found = w.line_found;
        order_found = w.order_found;
        receivable = is_receivable-cases w.order.status w.receivable;
        at_plant = w.at_plant;
        positive = w.positive;
        within = w.within;
        new_row = λ old. clashes-apart (new_receipt call w.tx) db.receipts old w.distinct;
        carries = rw w.is_receipt (new_receipt-Carries call w.tx);
        brings = receipt_movement-Brings call w.line;
        moved = rw (w.is_receipt, stock-Writes w) w.moved;
        receipts = rw w.is_receipt (receipts-Writes w);
        lines = λ k.
            ap (lookup k) (lines-Writes w)
            ∙ lookup-insert call.line k (updated call w.line) db.lines;
        orders = λ k. ap (lookup k) (orders-Writes w) ∙ lookup-insert o k (order_after w) db.orders;
        plant = refl;
        completed_iff = both.0;
        partial_iff = both.1;
        event = rw events-Writes there;
        events_kept = rw events-Writes kept;
      }

-- A successful call, whatever its first query saw, has replayed a stored receipt that has its key
-- and its fields, changing nothing and reporting it as not created; or it has recorded a receipt
-- whose key no receipt has, nor its line's receipts its number, on an order that is released or
-- partial, at its plant, for a positive quantity that is still open. It has then made the movement
-- of the item to the destination, stored the receipt, added the quantity to the line and to no
-- other, set the status of the order, and of no other, to completed exactly when all its lines have
-- received what was ordered, else to partial, and kept every event and stored one for the receipt.
pub receive_seeing-Received :
    (first : List GoodsReceipt) (call : Request) (r : GoodsReceipt) (b : Bool) (db db' : Db)
    → receive_seeing first call db ≡ (ok (r, b), db')
    → Received first call db r b db'
receive_seeing-Received first call r b db db' e =
    by_kind (receive_seeing-Written first call r b db db' e)
  where
    by_table :
        (find_receipt call.idempotency_key first ≡ some r)
          ⊎ (find_receipt call.idempotency_key db.receipts ≡ some r)
        → (Memᴰ r first ⊎ Memᴰ r db.receipts) × (r.idempotency_key ≡ call.idempotency_key)
    by_table (inl f) =
        let (m, key) = find_receipt-some call.idempotency_key first r f in (inl m, key)
    by_table (inr f) =
        let (m, key) = find_receipt-some call.idempotency_key db.receipts r f in (inr m, key)

    by_kind : Written first call db r b db' → Received first call db r b db'
    by_kind (found_again seen old same kept) =
        let (m, key) = by_table seen in replayed old m (same_receipt-Carries call r key same) kept
    by_kind (wrote new w) = recorded new (Writes-Recorded w)
