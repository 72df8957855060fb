-- ===== src/Purchasing/Stored.antt =====
-- What the tables of receipts and of events hold after a search, a test and an append.
use mathlib.Core.List.{Memᴰ}
use mrp_django.Common.{DomainEvent, append-new, append-old, append_domain_event, find_event}
use mrp_django.Inventory.Model.{type_eq}
use mrp_django.Prelude.{
  ==_iff, Bool-cases, List, Option-cases, Text, [], arith, false, inl, inr, nat_eq, option_eq,
  pair_eq, refl, some, sym, text_eq, ◌==◌, ◌∷◌, ◌≡◌, ◌≢◌,
}
use mrp_django.Purchasing.Service.{GoodsReceipt, clashes, find_receipt}

-- The row that a key finds is in the table and has the key.
pub find_receipt-some :
    (k : Text) (rs : List GoodsReceipt) (r : GoodsReceipt)
    → find_receipt k rs ≡ some r
    → Memᴰ r rs × (r.idempotency_key ≡ k)
unfolding find_receipt
find_receipt-some k [] r e = cc
find_receipt-some k (x ∷ rs) r e = elim (Bool-cases (x.idempotency_key == k)) [
  | inl y ↦
      let same : x ≡ r = ground (arith, y) in
      (Memᴰ.head (sym same), ground (arith, same, (==_iff x.idempotency_key k).0 y))
  | inr n ↦ let (m, key) = find_receipt-some k rs r (ground (arith, n)) in (Memᴰ.tail m, key)
]

-- A receipt that clashes with none has a key and, within its line, a number of its own.
pub clashes-apart :
    (r : GoodsReceipt) (rs : List GoodsReceipt) (old : GoodsReceipt)
    → clashes r rs ≡ false
    → Memᴰ old rs
    → (r.idempotency_key ≢ old.idempotency_key)
      × (r.line ≡ old.line → r.receipt_number ≢ old.receipt_number)
unfolding clashes
clashes-apart r [] old e m = elim m [ ]
clashes-apart r (s ∷ rs) old e (Memᴰ.head same) = rw same (
  λ q. ground (arith, (==_iff r.idempotency_key s.idempotency_key).1 q),
  λ p q. ground (arith, (==_iff r.line s.line).1 p, (==_iff r.receipt_number s.receipt_number).1 q),
)
clashes-apart r (s ∷ rs) old e (Memᴰ.tail m) = clashes-apart r rs old (ground arith) m

find_event-some :
    (k : Text) (es : List DomainEvent) (e : DomainEvent)
    → find_event k es ≡ some e
    → Memᴰ e es × (e.idempotency_key ≡ k)
unfolding find_event
find_event-some k [] e f = cc
find_event-some k (x ∷ es) e f = elim (Bool-cases (x.idempotency_key == k)) [
  | inl y ↦
      let same : x ≡ e = ground (arith, y) in
      (Memᴰ.head (sym same), ground (arith, same, (==_iff x.idempotency_key k).0 y))
  | inr n ↦ let (m, key) = find_event-some k es e (ground (arith, n)) in (Memᴰ.tail m, key)
]

-- An event that is appended is there, under its key, and every earlier one stays.
pub append_domain_event-Memᴰ :
    (e : DomainEvent) (es : List DomainEvent)
    → ((stored : DomainEvent) × Memᴰ stored (append_domain_event e es).1
        × (stored.idempotency_key ≡ e.idempotency_key))
      × ((old : DomainEvent) → Memᴰ old es → Memᴰ old (append_domain_event e es).1)
append_domain_event-Memᴰ e es = elim (Option-cases (find_event e.idempotency_key es)) [
  | inl n ↦ rw (append-new e es n) ((e, Memᴰ.head refl, refl), λ old m. Memᴰ.tail m)
  | inr (old, f) ↦
      let (m, key) = find_event-some e.idempotency_key es old f in
      rw (append-old e es f) ((old, m, key), λ x p. p)
]
