-- ===== src/Purchasing/Lines.antt =====
-- The received quantity of an order line against the receipts, and the status of the order.
use mrp_django.Inventory.Model.{type_eq}
use mrp_django.Prelude.{
  ==_iff, Bool, Bool-cases, List, Result, [], ap, arith, err, if◌then◌else◌, inl, inr, insert,
  int_laws, lookup, lookup-insert, nat_eq, ok, option_eq, pair_eq, pos, refl, some, sym, text_eq, ℕ,
  ℤ, ◌+ℤ◌, ◌==◌, ◌∙◌, ◌∷◌, ◌≡◌, ◌≤ℤ◌,
}
use mrp_django.Purchasing.Service.{
  Db, Error, GoodsReceipt, PurchaseOrderLine, Request, append_event, new_receipt, receive_seeing,
  save_received, save_status,
}
use mrp_django.Purchasing.Steps.{
  Writes, Written, found_again, receive_seeing-Written, receive_seeing-err, wrote,
}

-- The sum of the receipts of one line.
unfoldable pub receipts_of : ℕ → List GoodsReceipt → ℤ
receipts_of k [] = pos 0
receipts_of k (r ∷ rs) = (if r.line == k then r.quantity else pos 0) +ℤ receipts_of k rs

-- The line as a receipt leaves it.
abbrev pub updated : Request → PurchaseOrderLine → PurchaseOrderLine
updated call line = record line { received_quantity = line.received_quantity +ℤ call.quantity }

module _ {call : Request} {db db' : Db} {r : GoodsReceipt} (e : Writes call db r db') where
  pub lines-Writes : db'.lines ≡ insert call.line (updated call e.line) db.lines
  unfolding save_received save_status append_event
  lines-Writes = ap (λ (d : Db). d.lines) e.written

  pub receipts-Writes : db'.receipts ≡ new_receipt call e.tx ∷ db.receipts
  unfolding save_received save_status append_event
  receipts-Writes = ap (λ (d : Db). d.receipts) e.written

module _ (opening : ℕ → ℤ) where
  -- A line has received its opening quantity and its receipts, and no more than was ordered.
  pub record LineIsSound (rs : List GoodsReceipt) (k : ℕ) (line : PurchaseOrderLine) : Type 0 where
    pub accounted : line.received_quantity ≡ opening k +ℤ receipts_of k rs
    pub nonneg : pos 0 ≤ℤ line.received_quantity
    pub within : line.received_quantity ≤ℤ line.quantity

  abbrev pub IsSound : Db → Type 0
  IsSound db =
      (k : ℕ) (line : PurchaseOrderLine)
      → lookup k db.lines ≡ some line
      → LineIsSound db.receipts k line

  Writes-IsSound :
      (call : Request) (db db' : Db) (r : GoodsReceipt)
      → Writes call db r db'
      → IsSound db
      → IsSound db'
  unfolding receipts_of new_receipt
  Writes-IsSound call db db' r e h k line found =
      rw (receipts-Writes e) (elim (Bool-cases (call.line == k)) [
        | inl this ↦
            let same = (==_iff call.line k).0 this in
            let is_new : updated call e.line ≡ line = ground (arith, at, this) in
            let old = h call.line e.line e.line_found in
            rw (← is_new, ← same)
              (record {
                accounted = rw (old.accounted) (grind (int_laws, ==_iff call.line call.line));
                nonneg = omega (int_laws, old.nonneg);
                within = omega (int_laws, e.within);
              })
        | inr other ↦
            let old = h k line (ground (arith, at, other)) in
            record {
              accounted = rw (old.accounted) (grind (int_laws, other));
              nonneg = old.nonneg;
              within = old.within;
            }
      ])
    where
      at : (if call.line == k then some (updated call e.line) else lookup k db.lines) ≡ some line
      at =
          sym (lookup-insert call.line k (updated call e.line) db.lines)
          ∙ ap (lookup k) (sym (lines-Writes e))
          ∙ found

  Written-IsSound :
      (first : List GoodsReceipt) (call : Request) (db db' : Db) (r : GoodsReceipt) (b : Bool)
      → Written first call db r b db'
      → IsSound db
      → IsSound db'
  Written-IsSound first call db db' r b (found_again _ _ _ same) h = rw same h
  Written-IsSound first call db db' r b (wrote _ e) h = Writes-IsSound call db db' r e h

  pub receive_seeing-IsSound :
      (first : List GoodsReceipt) (call : Request) (db : Db)
      → IsSound db
      → IsSound (receive_seeing first call db).1
  receive_seeing-IsSound first call db h = by_result (receive_seeing first call db) refl
    where
      by_result :
          (p : Result Error (GoodsReceipt × Bool) × Db)
          → receive_seeing first call db ≡ p
          → IsSound p.1
      by_result (ok (r, b), db') e =
          Written-IsSound first call db db' r b (receive_seeing-Written first call r b db db' e) h
      by_result (err x, db') e = rw (receive_seeing-err first call db e) h

-- The calls of all sessions in the order of their commits, each with what its first query saw.
unfoldable pub run : List (List GoodsReceipt × Request) → Db → Db
run [] db = db
run ((first, call) ∷ cs) db = run cs (receive_seeing first call db).1

-- If each order line has received its opening quantity plus the quantities of its receipts, at least
-- nothing and at most what was ordered, the same holds after any sequence of calls, with any
-- interleaving of their queries.
pub run-IsSound :
    (opening : ℕ → ℤ) (calls : List (List GoodsReceipt × Request)) (db : Db)
    → IsSound opening db
    → IsSound opening (run calls db)
unfolding run
run-IsSound opening [] db h = h
run-IsSound opening ((first, call) ∷ cs) db h =
    run-IsSound opening cs (receive_seeing first call db).1
      (receive_seeing-IsSound opening first call db h)
