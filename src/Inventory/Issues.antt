-- ===== src/Inventory/Issues.antt =====
-- When an issue from stock goes through: the guards of `post_inventory_transaction` are exactly the
-- stock and the free stock of the source row.
use mrp_django.Inventory.Model.{
  Balance, Db, Error, InventoryTransaction, Location, available, fields_fit, is_bad_transfer, issue,
  not_positive, type_eq,
}
use mrp_django.Inventory.Service.{
  add_id, ensure_balance, ensure_balances, enter, enter_and_return, find_key, full_clean,
  involved_locations, lock_and_enter, locked_balances, logged, move_stock, post_found,
  post_inventory_transaction, post_seeing, publish, require, row_at, save_and_move, some_missing,
  take_out, truthy,
}
use mrp_django.Prelude.{
  Result, [], arith, err, lookup, nat_eq, none, ok, option_eq, pair_eq, pos, refl, roll_back, some,
  sym, text_eq, true, ◌<ℤ◌, ◌↔◌, ◌∙◌, ◌∷◌, ◌≡◌, ◌≤ℤ◌,
}

-- An issue with a row to take from, whose fields pass the validation and whose key is new.
pub record IsPlainIssue (tx : InventoryTransaction) (source : Location) (row : Balance) (db : Db)
    : Type 0 where
  pub is_issue : tx.transaction_type ≡ issue
  pub at : tx.from_location ≡ some source
  pub nowhere_else : tx.to_location ≡ none
  pub fits : fields_fit tx ≡ true
  pub positive : pos 0 <ℤ tx.quantity
  pub fresh : find_key tx.idempotency_key db.transactions ≡ none
  pub fresh_key : find_key (truthy tx.idempotency_key) db.transactions ≡ none
  pub found : lookup (tx.item, source.pk) db.balances ≡ some row

module _ (tx : InventoryTransaction) (source : Location) (row : Balance) (db : Db) where
  full_clean-plain : IsPlainIssue tx source row db → full_clean db.transactions tx db ≡ (ok tt, db)
  unfolding full_clean not_positive is_bad_transfer
  full_clean-plain p = ground (arith, p.is_issue, p.fits, p.positive, p.fresh)

  involved_locations-plain :
      (d : Db) → IsPlainIssue tx source row db → involved_locations tx d ≡ (ok (source.pk ∷ []), d)
  unfolding involved_locations require add_id
  involved_locations-plain d p = ground (arith, p.is_issue, p.at)

  locked_balances-plain :
      (d : Db)
      → lookup (tx.item, source.pk) d.balances ≡ some row
      → locked_balances tx.item (source.pk ∷ []) d ≡ (ok d.balances, d)
  unfolding locked_balances ensure_balances ensure_balance some_missing
  locked_balances-plain d f = ground (arith, f)

  take_out-plain :
      (d : Db)
      → IsPlainIssue tx source row db
      → lookup (tx.item, source.pk) d.balances ≡ some row
      → tx.quantity ≤ℤ row.on_hand
      → tx.quantity ≤ℤ available row
      → (enter_and_return tx d.balances d).0 ≡ ok tx
  unfolding enter_and_return enter take_out row_at
  take_out-plain d p f enough free = ground (arith, p.is_issue, p.at, f, enough, free)

  take_out-short :
      (d : Db)
      → IsPlainIssue tx source row db
      → lookup (tx.item, source.pk) d.balances ≡ some row
      → (enter_and_return tx d.balances d).0 ≡ ok tx
      → (tx.quantity ≤ℤ row.on_hand) × (tx.quantity ≤ℤ available row)
  unfolding enter_and_return enter take_out row_at
  take_out-short d p f e = ground (arith, p.is_issue, p.at, f)

  roll_back-ok : (d : Db) (r : Result Error InventoryTransaction × Db) → (roll_back d r).0 ≡ r.0
  roll_back-ok d (ok a, s) = refl
  roll_back-ok d (err e, s) = refl

  post-plain :
      IsPlainIssue tx source row db
      → (post_inventory_transaction tx db).0 ≡ (enter_and_return tx db.balances (logged tx db)).0
  unfolding post_inventory_transaction post_seeing post_found publish save_and_move move_stock
      lock_and_enter
  post-plain p =
      let d : Db = logged tx db in
      roll_back-ok db
        (post_found db.transactions tx (find_key (truthy tx.idempotency_key) db.transactions) db)
      ∙ ground (
        arith,
        p.fresh_key,
        p.fresh,
        full_clean-plain p,
        involved_locations-plain d p,
        p.at,
        p.nowhere_else,
        locked_balances-plain d p.found,
      )

  -- A valid issue from a location to none, with a new key, is accepted exactly when the row of the
  -- location, which is there, holds the quantity
  -- and, what is reserved put aside, still has it free.
  pub post_inventory_transaction-issue_iff :
      IsPlainIssue tx source row db
      → ((post_inventory_transaction tx db).0 ≡ ok tx)
        ↔ ((tx.quantity ≤ℤ row.on_hand) × (tx.quantity ≤ℤ available row))
  post_inventory_transaction-issue_iff p = (
    λ e. take_out-short (logged tx db) p p.found (sym (post-plain p) ∙ e),
    λ h. post-plain p ∙ take_out-plain (logged tx db) p p.found h.0 h.1,
  )
