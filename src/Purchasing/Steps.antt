-- ===== src/Purchasing/Steps.antt =====
-- The steps of a call of `receive_purchase_order_line` that returns.
use mathlib.Core.Path.{subst}
use mrp_django.Inventory.Model.{Db as StockDb, Error as StockError, InventoryTransaction, type_eq}
use mrp_django.Inventory.Service.{post_inventory_transaction}
use mrp_django.Prelude.{
  >>=-ok, Action, Bool, Bool-cases, List, Option, Option-cases, Result, arith, atomic-err,
  atomic-ok, err, false, inl, inr, lookup, nat_eq, none, ok, option_eq, pair_eq, pos, refl, some,
  text_eq, true, ◌-ℤ◌, ◌<ℤ◌, ◌>>=◌, ◌∷◌, ◌≡◌, ◌≤ℤ◌, ◌⊎◌,
}
use mrp_django.Purchasing.Service.{
  Db, Error, GoodsReceipt, PurchaseOrder, PurchaseOrderLine, Request, append_event, clashes,
  create_receipt, find_receipt, is_receivable, lift_result, new_receipt, on_stock, receipt_event,
  receipt_movement, receive_body, receive_locked, receive_new, receive_seeing, record_receipt,
  replay, replay_or_lock, replay_or_receive, same_receipt, save_received, save_status,
}

-- A call that has received: what it read, what it tested and what it wrote.
pub record Writes (call : Request) (db : Db) (r : GoodsReceipt) (db' : Db) : Type 0 where
  pub line : PurchaseOrderLine
  pub order : PurchaseOrder
  pub tx : InventoryTransaction
  pub stock' : StockDb
  pub line_found : lookup call.line db.lines ≡ some line
  pub order_found : lookup line.purchase_order db.orders ≡ some order
  pub receivable : is_receivable order.status ≡ true
  pub at_plant : call.destination.plant ≡ order.plant
  pub positive : pos 0 <ℤ call.quantity
  pub within : call.quantity ≤ℤ line.quantity -ℤ line.received_quantity
  pub moved : post_inventory_transaction (receipt_movement call line) db.stock ≡ (ok tx, stock')
  pub distinct : clashes (new_receipt call tx) db.receipts ≡ false
  pub is_receipt : r ≡ new_receipt call tx
  pub written :
      db'
      ≡ append_event (receipt_event call line.purchase_order) (
          save_status line.purchase_order order (
            save_received call.line line call.quantity
              (record db { stock = stock'; receipts = new_receipt call tx ∷ db.receipts })))

pub data Written (first : List GoodsReceipt) (call : Request) (db : Db)
    : GoodsReceipt → Bool → Db → Type 0 where
  found_again :
      {r : GoodsReceipt} {b : Bool} {db' : Db}
      → (find_receipt call.idempotency_key first ≡ some r)
        ⊎ (find_receipt call.idempotency_key db.receipts ≡ some r)
      → b ≡ false
      → same_receipt r call ≡ true
      → db' ≡ db
      → Written first call db r b db'
  wrote :
      {r : GoodsReceipt} {b : Bool} {db' : Db}
      → b ≡ true
      → Writes call db r db'
      → Written first call db r b db'

replay-ok :
    (first : List GoodsReceipt) (old r : GoodsReceipt) (call : Request) (b : Bool) (db db' : Db)
    → (find_receipt call.idempotency_key first ≡ some old)
      ⊎ (find_receipt call.idempotency_key db.receipts ≡ some old)
    → replay old call db ≡ (ok (r, b), db')
    → Written first call db r b db'
unfolding replay
replay-ok first old r call b db db' seen e =
    let kept : old ≡ r = ground arith in
    let seen' =
      subst
        (λ (x : GoodsReceipt).
          (find_receipt call.idempotency_key first ≡ some x)
          ⊎ (find_receipt call.idempotency_key db.receipts ≡ some x))
        kept seen in
    found_again seen' (ground arith) (ground arith) (ground arith)

on_stock-ok :
    {A : Type 0} (m : Action StockError StockDb A) (a : A) (db db' : Db)
    → on_stock m db ≡ (ok a, db')
    → (s : StockDb) × (m db.stock ≡ (ok a, s)) × (db' ≡ record db { stock = s })
unfolding on_stock
on_stock-ok {A} m a db db' e = split (m db.stock) refl e
  where
    split :
        (p : Result StockError A × StockDb)
        → m db.stock ≡ p
        → lift_result db p ≡ (ok a, db')
        → (s : StockDb) × (m db.stock ≡ (ok a, s)) × (db' ≡ record db { stock = s })
    split (ok x, s) q h = (s, ground arith, ground arith)
    split (err x, s) q h = cc

module _ (call : Request) (line : PurchaseOrderLine) (order : PurchaseOrder) (r : GoodsReceipt)
    (b : Bool) where
  record_receipt-ok :
      (tx : InventoryTransaction) (db db' : Db)
      → record_receipt call line order tx db ≡ (ok (r, b), db')
      → (b ≡ true)
        × (r ≡ new_receipt call tx)
        × (clashes (new_receipt call tx) db.receipts ≡ false)
        × (db'
            ≡ append_event (receipt_event call line.purchase_order) (
                save_status line.purchase_order order (
                  save_received call.line line call.quantity
                    (record db { receipts = new_receipt call tx ∷ db.receipts }))))
  unfolding record_receipt create_receipt
  record_receipt-ok tx db db' e = elim (Bool-cases (clashes (new_receipt call tx) db.receipts)) [
    | inl c ↦ ground (arith, c)
    | inr c ↦ ground (arith, c)
  ]

  receive_new-guards :
      (db db' : Db)
      → receive_new call line order db ≡ (ok (r, b), db')
      → (is_receivable order.status ≡ true)
        × (call.destination.plant ≡ order.plant)
        × (pos 0 <ℤ call.quantity)
        × (call.quantity ≤ℤ line.quantity -ℤ line.received_quantity)
        × ((on_stock (post_inventory_transaction (receipt_movement call line))
                >>= record_receipt call line order)
              db
            ≡ (ok (r, b), db'))
  unfolding receive_new
  receive_new-guards db db' e = ground arith

  receive_new-Written :
      (first : List GoodsReceipt) (db db' : Db)
      → lookup call.line db.lines ≡ some line
      → lookup line.purchase_order db.orders ≡ some order
      → receive_new call line order db ≡ (ok (r, b), db')
      → Written first call db r b db'
  receive_new-Written first db db' fl fo e =
      let (open_status, plant, positive, within, rest) = receive_new-guards db db' e in
      let (tx, s, e1, r1) =
        >>=-ok (on_stock (post_inventory_transaction (receipt_movement call line)))
          (record_receipt call line order) db rest in
      let (stock', entered_stock, put) =
        on_stock-ok (post_inventory_transaction (receipt_movement call line)) tx db s e1 in
      let (is_created, is_r, free, done) = record_receipt-ok tx s db' r1 in
      wrote is_created (record {
        line = line;
        order = order;
        tx = tx;
        stock' = stock';
        line_found = fl;
        order_found = fo;
        receivable = open_status;
        at_plant = plant;
        positive = positive;
        within = within;
        moved = entered_stock;
        distinct = rw put at free;
        is_receipt = is_r;
        written = rw put at done;
      })

replay_or_receive-Written :
    (first : List GoodsReceipt) (call : Request) (line : PurchaseOrderLine) (order : PurchaseOrder)
    (o : Option GoodsReceipt) (r : GoodsReceipt) (b : Bool) (db db' : Db)
    → find_receipt call.idempotency_key db.receipts ≡ o
    → lookup call.line db.lines ≡ some line
    → lookup line.purchase_order db.orders ≡ some order
    → replay_or_receive call line order o db ≡ (ok (r, b), db')
    → Written first call db r b db'
unfolding replay_or_receive
replay_or_receive-Written first call line order none r b db db' seen fl fo e =
    receive_new-Written call line order r b first db db' fl fo e
replay_or_receive-Written first call line order (some old) r b db db' seen fl fo e =
    replay-ok first old r call b db db' (inr seen) e

receive_locked-Written :
    (first : List GoodsReceipt) (call : Request) (r : GoodsReceipt) (b : Bool) (db db' : Db)
    → receive_locked call db ≡ (ok (r, b), db')
    → Written first call db r b db'
unfolding receive_locked
receive_locked-Written first call r b db db' e = elim (Option-cases (lookup call.line db.lines)) [
  | inl n ↦ ground (arith, n)
  | inr (line, fl) ↦ elim (Option-cases (lookup line.purchase_order db.orders)) [
    | inl n ↦ ground (arith, fl, n)
    | inr (order, fo) ↦
        replay_or_receive-Written first call line order
          (find_receipt call.idempotency_key db.receipts) r b db db' refl fl fo
          (ground (arith, fl, fo))
  ]
]

receive_body-Written :
    (first : List GoodsReceipt) (call : Request) (o : Option GoodsReceipt) (r : GoodsReceipt)
    (b : Bool) (db db' : Db)
    → find_receipt call.idempotency_key first ≡ o
    → replay_or_lock call o db ≡ (ok (r, b), db')
    → Written first call db r b db'
unfolding replay_or_lock
receive_body-Written first call none r b db db' seen e =
    receive_locked-Written first call r b db db' e
receive_body-Written first call (some old) r b db db' seen e =
    replay-ok first old r call b db db' (inl seen) e

pub receive_seeing-Written :
    (first : List GoodsReceipt) (call : Request) (r : GoodsReceipt) (b : Bool) (db db' : Db)
    → receive_seeing first call db ≡ (ok (r, b), db')
    → Written first call db r b db'
unfolding receive_seeing receive_body
receive_seeing-Written first call r b db db' e =
    let body = atomic-ok (receive_body first call) db e in
    receive_body-Written first call (find_receipt call.idempotency_key first) r b db db' refl
      (ground arith)

pub receive_seeing-err :
    (first : List GoodsReceipt) (call : Request) (db : Db) {x : Error} {db' : Db}
    → receive_seeing first call db ≡ (err x, db')
    → db' ≡ db
unfolding receive_seeing
receive_seeing-err first call db e = atomic-err (receive_body first call) db e
