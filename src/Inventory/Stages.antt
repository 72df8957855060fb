-- ===== src/Inventory/Stages.antt =====
-- What a successful stage of `post_inventory_transaction` has read, tested and written.
use mrp_django.Inventory.Model.{
  Balance, Db, InventoryTransaction, Location, available, production_issue, type_eq,
}
use mrp_django.Inventory.Service.{adjust, or_else, put_in, save_on_hand, take_out}
use mrp_django.Prelude.{
  ==_iff, Option-cases, Table, arith, inl, inr, lookup, nat_eq, ok, option_eq, pair_eq, pos, some,
  text_eq, ℕ, ◌+ℤ◌, ◌-ℤ◌, ◌≡◌, ◌≢◌, ◌≤ℤ◌,
}

module _ (rows : Table (ℕ × ℕ) Balance) (tx : InventoryTransaction) (db db' : Db) where
  -- What it means that `q` was taken from a row with stock.
  pub record TakenOut : Type 0 where
    pub source : Location
    pub row : Balance
    pub at : tx.from_location ≡ some source
    pub found : lookup (tx.item, source.pk) rows ≡ some row
    pub enough : tx.quantity ≤ℤ row.on_hand
    pub free : tx.transaction_type ≢ production_issue → tx.quantity ≤ℤ available row
    pub written : db' ≡ save_on_hand tx.item (some source) (row.on_hand -ℤ tx.quantity) db

  pub record PutIn : Type 0 where
    pub target : Location
    pub row : Balance
    pub at : tx.to_location ≡ some target
    pub found : lookup (tx.item, target.pk) rows ≡ some row
    pub written : db' ≡ save_on_hand tx.item (some target) (row.on_hand +ℤ tx.quantity) db

  pub record Adjusted : Type 0 where
    pub place : Location
    pub row : Balance
    pub at : or_else tx.to_location tx.from_location ≡ some place
    pub found : lookup (tx.item, place.pk) rows ≡ some row
    pub nonneg : pos 0 ≤ℤ row.on_hand +ℤ tx.quantity
    pub covers : row.allocated ≤ℤ row.on_hand +ℤ tx.quantity
    pub written : db' ≡ save_on_hand tx.item (some place) (row.on_hand +ℤ tx.quantity) db

  pub take_out-ok : take_out rows tx db ≡ (ok tt, db') → TakenOut
  unfolding take_out
  take_out-ok e = elim (Option-cases tx.from_location) [
    | inl n ↦ cc (rw n at e)
    | inr (l, s) ↦ elim (Option-cases (lookup (tx.item, l.pk) rows)) [
      | inl n ↦ ground (arith, s, n)
      | inr (b, f) ↦ record {
        source = l;
        row = b;
        at = s;
        found = f;
        enough = ground arith;
        free = λ ne. ground (arith, ==_iff tx.transaction_type production_issue);
        written = ground arith;
      }
    ]
  ]

  pub put_in-ok : put_in rows tx db ≡ (ok tt, db') → PutIn
  unfolding put_in
  put_in-ok e = elim (Option-cases tx.to_location) [
    | inl n ↦ ground (arith, n)
    | inr (l, s) ↦ elim (Option-cases (lookup (tx.item, l.pk) rows)) [
      | inl n ↦ ground (arith, s, n)
      | inr (b, f) ↦ record { target = l; row = b; at = s; found = f; written = ground arith }
    ]
  ]

  pub adjust-ok : adjust rows tx db ≡ (ok tt, db') → Adjusted
  unfolding adjust
  adjust-ok e = elim (Option-cases (or_else tx.to_location tx.from_location)) [
    | inl n ↦ ground (arith, n)
    | inr (l, s) ↦ elim (Option-cases (lookup (tx.item, l.pk) rows)) [
      | inl n ↦ ground (arith, s, n)
      | inr (b, f) ↦ record {
        place = l;
        row = b;
        at = s;
        found = f;
        nonneg = ground arith;
        covers = ground arith;
        written = ground arith;
      }
    ]
  ]
