-- ===== src/Purchasing/Replay.antt =====
-- Sending a receipt again.
use mrp_django.Inventory.Model.{InventoryTransaction, type_eq}
use mrp_django.Prelude.{
  ==_iff, Bool, List, [], arith, atomic-ok, false, nat_eq, ok, option_eq, pair_eq, refl, some,
  text_eq, true, ◌==◌, ◌∷◌, ◌≡◌,
}
use mrp_django.Purchasing.Lines.{receipts-Writes}
use mrp_django.Purchasing.Service.{
  Db, GoodsReceipt, Request, find_receipt, new_receipt, receive_body, receive_purchase_order_line,
  receive_seeing, replay, replay_or_lock, same_receipt,
}
use mrp_django.Purchasing.Steps.{Written, found_again, receive_seeing-Written, wrote}

receive_seeing-key :
    (first : List GoodsReceipt) (call : Request) (r : GoodsReceipt) (b : Bool) (db db' : Db)
    → receive_seeing first call db ≡ (ok (r, b), db')
    → (call.idempotency_key == []) ≡ false
unfolding receive_seeing receive_body
receive_seeing-key first call r b db db' e =
    let body = atomic-ok (receive_body first call) db e in ground arith

receive_seeing-found :
    (first : List GoodsReceipt) (call : Request) (old : GoodsReceipt) (db : Db)
    → (call.idempotency_key == []) ≡ false
    → find_receipt call.idempotency_key first ≡ some old
    → same_receipt old call ≡ true
    → receive_seeing first call db ≡ (ok (old, false), db)
unfolding receive_seeing receive_body replay_or_lock replay
receive_seeing-found first call old db key found same = ground (arith, key, found, same)

new_receipt-matches :
    (call : Request) (tx : InventoryTransaction) (rs : List GoodsReceipt)
    → (find_receipt call.idempotency_key (new_receipt call tx ∷ rs) ≡ some (new_receipt call tx))
      × (same_receipt (new_receipt call tx) call ≡ true)
unfolding find_receipt new_receipt same_receipt
new_receipt-matches call tx rs =
    let key = (==_iff call.idempotency_key call.idempotency_key).1 refl in
    let number = (==_iff call.receipt_number call.receipt_number).1 refl in
    (ground (arith, key), ground (arith, number))

-- A receipt that was accepted can be sent again with its key: the call returns the same receipt,
-- reports it as not created and changes nothing.
pub receive_purchase_order_line-again :
    (call : Request) (r : GoodsReceipt) (b : Bool) (db db' : Db)
    → receive_purchase_order_line call db ≡ (ok (r, b), db')
    → receive_purchase_order_line call db' ≡ (ok (r, false), db')
unfolding receive_purchase_order_line
receive_purchase_order_line-again call r b db db' e =
    by_kind (receive_seeing-Written db.receipts call r b db db' e)
  where
    by_kind :
        Written db.receipts call db r b db'
        → receive_seeing db'.receipts call db' ≡ (ok (r, false), db')
    by_kind (found_again _ f m same) = rw (same, ← f) (rw same at e)
    by_kind (wrote t d) =
        let (found, m) = new_receipt-matches call d.tx db.receipts in
        rw d.is_receipt (
          receive_seeing-found db'.receipts call (new_receipt call d.tx) db'
            (receive_seeing-key db.receipts call r b db db' e) (rw (receipts-Writes d) found) m)
