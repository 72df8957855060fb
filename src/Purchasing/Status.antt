-- ===== src/Purchasing/Status.antt =====
-- The status that a receipt leaves on its order, its effect on the stock, and its replay.
use mrp_django.Inventory.Balances.{entry, on_hand_at}
use mrp_django.Inventory.Effect.{effect}
use mrp_django.Inventory.Model.{type_eq}
use mrp_django.Inventory.Posting.{post_inventory_transaction-Entered}
use mrp_django.Inventory.Service.{find_key}
use mrp_django.Prelude.{
  ==_iff, Bool-cases, List, Table, [], ap, arith, codes, false, if◌then◌else◌, inl, inr, insert,
  lookup, lookup-insert_self, nat_eq, none, ok, option_eq, pair_eq, refl, some, text_eq, true, ℕ,
  ◌++◌, ◌+ℤ◌, ◌↔◌, ◌∙◌, ◌∷◌, ◌≡◌, ◌≤ℤ◌,
}
use mrp_django.Purchasing.Service.{
  Db, GoodsReceipt, OrderStatus, PurchaseOrder, PurchaseOrderLine, Request, append_event, completed,
  has_open_line, partial, receipt_movement, receive_seeing, save_received, save_status,
}
use mrp_django.Purchasing.Steps.{Writes, Written, found_again, receive_seeing-Written, wrote}

-- Every line of the order has received what was ordered.
abbrev pub AllReceived : ℕ → Table ℕ PurchaseOrderLine → Type 0
AllReceived o [] = Unit
AllReceived o ((_, l) ∷ ls) =
    (l.purchase_order ≡ o → l.quantity ≤ℤ l.received_quantity) × AllReceived o ls

has_open_line_iff :
    (o : ℕ) (ls : Table ℕ PurchaseOrderLine) → (has_open_line o ls ≡ false) ↔ AllReceived o ls
unfolding has_open_line
has_open_line_iff o [] = (λ _. tt, λ _. refl)
has_open_line_iff o ((k, l) ∷ ls) =
    let rest = has_open_line_iff o ls in
    (
      ground (arith, rest, ==_iff l.purchase_order o),
      ground (arith, rest, ==_iff l.purchase_order o),
    )

module _ {call : Request} {db db' : Db} {r : GoodsReceipt} (e : Writes call db r db') where
  abbrev pub order_after : PurchaseOrder
  order_after = record e.order {
    status = if has_open_line e.line.purchase_order db'.lines then partial else completed;
  }

  pub orders-Writes : db'.orders ≡ insert e.line.purchase_order order_after db.orders
  unfolding save_received save_status append_event
  orders-Writes = rw e.written refl

  pub stock-Writes : db'.stock ≡ e.stock'
  unfolding save_received save_status append_event
  stock-Writes = ap (λ (d : Db). d.stock) e.written

-- What a created receipt leaves behind, for the order `o` of its line.
pub record Settled (call : Request) (db' : Db) (o : ℕ) (order : PurchaseOrder) : Type 0 where
  pub found : lookup o db'.orders ≡ some order
  pub completed_iff : (order.status ≡ completed) ↔ AllReceived o db'.lines
  pub partial_iff : (order.status ≡ partial) ↔ ¬ AllReceived o db'.lines

pub status_iff :
    (o : ℕ) (ls : Table ℕ PurchaseOrderLine) (s : OrderStatus)
    → s ≡ (if has_open_line o ls then partial else completed)
    → ((s ≡ completed) ↔ AllReceived o ls) × ((s ≡ partial) ↔ ¬ AllReceived o ls)
status_iff o ls s e = elim (Bool-cases (has_open_line o ls)) [
  | inl more ↦
      let at : s ≡ partial = rw more at e in
      (
        (λ c. cc, λ a. cc (more, (has_open_line_iff o ls).1 a)),
        (λ p a. cc (more, (has_open_line_iff o ls).1 a), λ n. at),
      )
  | inr full ↦
      let at : s ≡ completed = rw full at e in
      let all = (has_open_line_iff o ls).0 full in
      ((λ c. all, λ a. at), (λ p. cc, λ n. absurd (n all)))
]

-- A created receipt leaves its order completed exactly when every line of the order has received
-- what was ordered, and partial exactly when some line has not.
pub receive_seeing-Settled :
    (first : List GoodsReceipt) (call : Request) (r : GoodsReceipt) (db db' : Db)
    → receive_seeing first call db ≡ (ok (r, true), db')
    → (line : PurchaseOrderLine) × (order : PurchaseOrder) × (lookup call.line db.lines ≡ some line)
      × Settled call db' line.purchase_order order
receive_seeing-Settled first call r db db' e =
    by_kind (receive_seeing-Written first call r true db db' e)
  where
    by_kind :
        Written first call db r true db'
        → (line : PurchaseOrderLine) × (order : PurchaseOrder) × (lookup call.line db.lines
            ≡ some line)
          × Settled call db' line.purchase_order order
    by_kind (found_again _ f _ _) = cc
    by_kind (wrote _ d) =
        let both = status_iff d.line.purchase_order db'.lines (order_after d).status refl in
        (
          d.line,
          order_after d,
          d.line_found,
          record {
            found =
                ap (lookup d.line.purchase_order) (orders-Writes d)
                ∙ lookup-insert_self d.line.purchase_order (order_after d) db.orders;
            completed_iff = both.0;
            partial_iff = both.1;
          },
        )

-- A created receipt whose stock movement has a new key brings exactly its quantity of the line's
-- item to the destination, and no other stock changes.
pub receive_seeing-stock :
    (first : List GoodsReceipt) (call : Request) (r : GoodsReceipt) (db db' : Db)
    → receive_seeing first call db ≡ (ok (r, true), db')
    → find_key (some (codes "purchase-receipt:" ++ call.idempotency_key)) db.stock.transactions
      ≡ none
    → (line : PurchaseOrderLine) × (lookup call.line db.lines ≡ some line)
      × ((i l : ℕ)
          → on_hand_at db'.stock i l
            ≡ on_hand_at db.stock i l +ℤ entry line.item (some call.destination) call.quantity i l)
unfolding receipt_movement effect
receive_seeing-stock first call r db db' e new =
    by_kind (receive_seeing-Written first call r true db db' e)
  where
    by_kind :
        Written first call db r true db'
        → (line : PurchaseOrderLine) × (lookup call.line db.lines ≡ some line)
          × ((i l : ℕ)
              → on_hand_at db'.stock i l
                ≡ on_hand_at db.stock i l
                  +ℤ entry line.item (some call.destination) call.quantity i l)
    by_kind (found_again _ f _ _) = cc
    by_kind (wrote _ d) =
        let (_, m) =
          post_inventory_transaction-Entered (receipt_movement call d.line) d.tx db.stock d.stock'
            new new d.moved in
        (d.line, d.line_found, λ i l. rw (stock-Writes d) (m.on_hand i l))
