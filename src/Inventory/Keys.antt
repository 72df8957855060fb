-- ===== src/Inventory/Keys.antt =====
-- What a key finds in the log of movements.
use mathlib.Core.List.{Memᴰ}
use mrp_django.Inventory.Model.{InventoryTransaction, location_id, type_eq}
use mrp_django.Inventory.Service.{find_key, is_some, matches, truthy}
use mrp_django.Prelude.{
  ==_iff, Bool-cases, List, Option, Text, [], ap, arith, eqb_ℤ_iff, false, inl, inr, nat_eq, none,
  option_eq, pair_eq, refl, some, sym, text_eq, true, ◌==◌, ◌∙◌, ◌∷◌, ◌≡◌, ◌≢◌,
}

-- A row that has the key of a movement and carries the same movement.
pub record Repeats (tx row : InventoryTransaction) : Type 0 where
  pub keyed : tx.idempotency_key ≢ none
  pub key : row.idempotency_key ≡ tx.idempotency_key
  pub kind : row.transaction_type ≡ tx.transaction_type
  pub item : row.item ≡ tx.item
  pub source : location_id row.from_location ≡ location_id tx.from_location
  pub target : location_id row.to_location ≡ location_id tx.to_location
  pub quantity : row.quantity ≡ tx.quantity
  pub reference_type : row.reference_type ≡ tx.reference_type
  pub reference_id : row.reference_id ≡ tx.reference_id

find_key-some :
    (o : Option Text) (txs : List InventoryTransaction) (row : InventoryTransaction)
    → find_key o txs ≡ some row
    → Memᴰ row txs × (row.idempotency_key ≡ o) × (o ≢ none)
unfolding find_key
find_key-some none txs row e = cc
find_key-some (some k) [] row e = cc
find_key-some (some k) (x ∷ txs) row e = elim (Bool-cases (x.idempotency_key == some k)) [
  | inl y ↦
      let same : x ≡ row = ground (arith, y) in
      (Memᴰ.head (sym same), ground (arith, same, (==_iff x.idempotency_key (some k)).0 y), λ n. cc)
  | inr n ↦
      let (m, key, given) = find_key-some (some k) txs row (ground (arith, n)) in
      (Memᴰ.tail m, key, given)
]

truthy-keyed : (o : Option Text) → truthy o ≢ none → truthy o ≡ o
truthy-keyed none n = absurd (n refl)
truthy-keyed (some []) n = absurd (n refl)
truthy-keyed (some (c ∷ k)) n = refl

pub find_key-Repeats :
    (txs : List InventoryTransaction) (tx row : InventoryTransaction)
    → find_key (truthy tx.idempotency_key) txs ≡ some row
    → matches row tx ≡ true
    → Memᴰ row txs × Repeats tx row
unfolding matches
find_key-Repeats txs tx row f e =
    let (m, key, given) = find_key-some (truthy tx.idempotency_key) txs row f in
    let same = truthy-keyed tx.idempotency_key given in
    (
      m,
      record {
        keyed = λ n. given (same ∙ n);
        key = key ∙ same;
        kind = ground (arith, ==_iff row.transaction_type tx.transaction_type);
        item = ground (arith, ==_iff row.item tx.item);
        source =
            ground (arith, ==_iff (location_id row.from_location) (location_id tx.from_location));
        target = ground (arith, ==_iff (location_id row.to_location) (location_id tx.to_location));
        quantity = ground (arith, eqb_ℤ_iff row.quantity tx.quantity);
        reference_type = ground (arith, ==_iff row.reference_type tx.reference_type);
        reference_id = ground (arith, ==_iff row.reference_id tx.reference_id);
      },
    )

-- Where a key finds nothing, no row has it.
pub is_some-apart :
    (o : Option Text) (k : Text) (txs : List InventoryTransaction) (old : InventoryTransaction)
    → o ≡ some k
    → is_some (find_key o txs) ≡ false
    → Memᴰ old txs
    → old.idempotency_key ≢ some k
unfolding find_key
is_some-apart none k txs old is e m = cc
is_some-apart (some j) k [] old is e m = elim m [ ]
is_some-apart (some j) k (x ∷ txs) old is e (Memᴰ.head same) = λ q. ground (
  arith,
  (==_iff x.idempotency_key (some j)).1
      (ap (λ (y : InventoryTransaction). y.idempotency_key) (sym same) ∙ q ∙ sym is),
)
is_some-apart (some j) k (x ∷ txs) old is e (Memᴰ.tail m) =
    is_some-apart (some j) k txs old is (ground arith) m
