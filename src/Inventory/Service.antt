-- ===== src/Inventory/Service.antt =====
-- apps/inventory/services.py: `post_inventory_transaction` and its helpers, statement by statement.
-- Other sessions may commit between two queries, so the rows seen by the first query and by the
-- validation are arguments, `first` and `cleaned`; the insertion meets the table itself.
use mrp_django.Inventory.Model.{
  Balance, Db, Error, InventoryTransaction, Location, Post, TransactionType, adjustment, available,
  bad_transfer, below_allocated, duplicate_key, fields_fit, integrity_error, invalid_field,
  is_bad_transfer, issue, key_reused, location_id, location_required, negative_balance,
  not_positive, other_plant, production_issue, production_receipt, purchase_receipt,
  quantity_not_positive, receipt, return, short_available, short_on_hand, source_required,
  stock_missing, target_required, transfer, type_eq, zero_quantity,
}
use mrp_django.Prelude.{
  Bool, List, Option, Table, Text, [], atomic, eqb_ℤ, false, get, if◌then◌else◌, insert, lookup,
  ltb, ltb_ℤ, modify, nat_eq, none, not, option_eq, or_raise, pair_eq, pos, pure, raise, raise_if,
  some, text_eq, true, ℕ, ℤ, ◌&&◌, ◌+ℤ◌, ◌-ℤ◌, ◌==◌, ◌>>=◌, ◌>>◌, ◌||◌, ◌∷◌,
}

-- `comparable_fields`: does a replay carry the same movement?
unfoldable pub matches : InventoryTransaction → InventoryTransaction → Bool
matches old new =
    old.transaction_type == new.transaction_type
    && old.item == new.item
    && location_id old.from_location == location_id new.from_location
    && location_id old.to_location == location_id new.to_location
    && eqb_ℤ old.quantity new.quantity
    && old.reference_type == new.reference_type
    && old.reference_id == new.reference_id

-- `_validate_idempotent_replay`, then `return existing`
unfoldable pub replay : InventoryTransaction → InventoryTransaction → Post InventoryTransaction
replay old new = do raise_if (not (matches old new)) key_reused; pure old

-- `.filter(idempotency_key=key).first()`; NULL equals nothing.
unfoldable pub find_key : Option Text → List InventoryTransaction → Option InventoryTransaction
find_key none txs = none
find_key (some k) [] = none
find_key (some k) (tx ∷ txs) =
    if tx.idempotency_key == some k then some tx else find_key (some k) txs

abbrev pub is_some : {A : Type 0} → Option A → Bool
is_some none = false
is_some (some _) = true

-- The empty text is false, as None is.
abbrev pub truthy : Option Text → Option Text
truthy none = none
truthy (some []) = none
truthy (some (c ∷ k)) = some (c ∷ k)

-- `tx.full_clean()`
unfoldable pub full_clean : List InventoryTransaction → InventoryTransaction → Post (Unit {0})
full_clean cleaned tx = do
  raise_if (not (fields_fit tx)) invalid_field
  raise_if (not_positive tx) quantity_not_positive
  raise_if (is_bad_transfer tx) bad_transfer
  raise_if (is_some (find_key tx.idempotency_key cleaned)) duplicate_key
  raise_if (eqb_ℤ tx.quantity (pos 0)) zero_quantity

abbrev pub is_outgoing : TransactionType → Bool
is_outgoing issue = true
is_outgoing transfer = true
is_outgoing production_issue = true
is_outgoing _ = false

abbrev pub is_incoming : TransactionType → Bool
is_incoming receipt = true
is_incoming transfer = true
is_incoming purchase_receipt = true
is_incoming production_receipt = true
is_incoming return = true
is_incoming _ = false

-- `a or b` on optional rows.
abbrev pub or_else : Option Location → Option Location → Option Location
or_else (some l) _ = some l
or_else none m = m

-- `location_ids = sorted({...})`: one location put into the sorted set.
unfoldable pub add_id : ℕ → List ℕ → List ℕ
add_id l [] = l ∷ []
add_id l (m ∷ ms) = if l == m then m ∷ ms else (if ltb l m then l ∷ m ∷ ms else m ∷ add_id l ms)

-- `involved_locations`, with the demand for each location that the type needs.
unfoldable pub require : Bool → Option Location → Error → List ℕ → Post (List ℕ)
unfolding add_id
require false l e ids = pure ids
require true none e ids = raise e
require true (some l) e ids = pure (add_id l.pk ids)

unfoldable pub involved_locations : InventoryTransaction → Post (List ℕ)
involved_locations tx = do
  out ← require (is_outgoing tx.transaction_type) tx.from_location source_required []
  both ← require (is_incoming tx.transaction_type) tx.to_location target_required out
  require (tx.transaction_type == adjustment) (or_else tx.to_location tx.from_location)
      location_required both

abbrev pub crosses_plants : Option Location → Option Location → Bool
crosses_plants (some f) (some t) = not (f.plant == t.plant)
crosses_plants _ _ = false

-- `_ensure_balance`: the row is created if it is missing; losing a race for it is no error.
unfoldable pub ensure_balance : ℕ → ℕ → Db → Db
ensure_balance item l db = if is_some (lookup (item, l) db.balances) then db else record db {
  balances = insert (item, l) (record { on_hand = pos 0; allocated = pos 0 }) db.balances;
}

unfoldable pub ensure_balances : ℕ → List ℕ → Db → Db
ensure_balances item [] db = db
ensure_balances item (l ∷ ls) db = ensure_balances item ls (ensure_balance item l db)

-- `missing = set(location_ids) - set(balances)`
unfoldable pub some_missing : ℕ → List ℕ → Table (ℕ × ℕ) Balance → Bool
some_missing item [] rows = false
some_missing item (l ∷ ls) rows = not (is_some (lookup (item, l) rows)) || some_missing item ls rows

-- `_locked_balances`: the rows as read under the lock.
unfoldable pub locked_balances : ℕ → List ℕ → Post (Table (ℕ × ℕ) Balance)
unfolding ensure_balances some_missing
locked_balances item ids = do
  modify (ensure_balances item ids)
  db ← get
  raise_if (some_missing item ids db.balances) stock_missing
  pure db.balances

-- `balances[location_id]`
unfoldable pub row_at : Table (ℕ × ℕ) Balance → ℕ → Option Location → Post Balance
row_at rows item none = raise stock_missing
row_at rows item (some l) = or_raise (lookup (item, l.pk) rows) stock_missing

abbrev pub with_on_hand : ℕ × ℕ → ℤ → Option Balance → Table (ℕ × ℕ) Balance → Table (ℕ × ℕ) Balance
with_on_hand k v none t = t
with_on_hand k v (some b) t = insert k (record b { on_hand = v }) t

-- `row.save(update_fields=["on_hand", "updated_at"])`
unfoldable pub save_on_hand : ℕ → Option Location → ℤ → Db → Db
save_on_hand item none v db = db
save_on_hand item (some l) v db = record db {
  balances = with_on_hand (item, l.pk) v (lookup (item, l.pk) db.balances) db.balances;
}

unfoldable pub take_out : Table (ℕ × ℕ) Balance → InventoryTransaction → Post (Unit {0})
unfolding row_at
take_out rows tx = do
  source ← row_at rows tx.item tx.from_location
  raise_if (ltb_ℤ source.on_hand tx.quantity) short_on_hand
  raise_if (not (tx.transaction_type == production_issue) && ltb_ℤ (available source) tx.quantity)
      short_available
  modify (save_on_hand tx.item tx.from_location (source.on_hand -ℤ tx.quantity))

unfoldable pub put_in : Table (ℕ × ℕ) Balance → InventoryTransaction → Post (Unit {0})
unfolding row_at
put_in rows tx = do
  target ← row_at rows tx.item tx.to_location
  modify (save_on_hand tx.item tx.to_location (target.on_hand +ℤ tx.quantity))

unfoldable pub adjust : Table (ℕ × ℕ) Balance → InventoryTransaction → Post (Unit {0})
unfolding row_at
adjust rows tx = do
  let location = or_else tx.to_location tx.from_location
  balance ← row_at rows tx.item location
  let on_hand = balance.on_hand +ℤ tx.quantity
  raise_if (ltb_ℤ on_hand (pos 0)) negative_balance
  raise_if (ltb_ℤ on_hand balance.allocated) below_allocated
  modify (save_on_hand tx.item location on_hand)

abbrev pub when : Bool → Post (Unit {0}) → Post (Unit {0})
when true m db = m db
when false m db = pure tt db

-- The three updates, each for the types that make it.
unfoldable pub enter : Table (ℕ × ℕ) Balance → InventoryTransaction → Post (Unit {0})
enter rows tx = do
  when (is_outgoing tx.transaction_type) (take_out rows tx)
  when (is_incoming tx.transaction_type) (put_in rows tx)
  when (tx.transaction_type == adjustment) (adjust rows tx)

unfoldable pub enter_and_return :
    InventoryTransaction → Table (ℕ × ℕ) Balance → Post InventoryTransaction
enter_and_return tx rows = do enter rows tx; pure tx

unfoldable pub lock_and_enter : InventoryTransaction → List ℕ → Post InventoryTransaction
lock_and_enter tx ids = do
  raise_if (crosses_plants tx.from_location tx.to_location) other_plant
  rows ← locked_balances tx.item ids
  enter_and_return tx rows

-- All that follows the insertion of the movement.
unfoldable pub move_stock : InventoryTransaction → Post InventoryTransaction
move_stock tx = do ids ← involved_locations tx; lock_and_enter tx ids

-- `except IntegrityError`
unfoldable pub recover : InventoryTransaction → Post InventoryTransaction
recover tx = do
  db ← get
  existing ← or_raise (find_key (truthy tx.idempotency_key) db.transactions) integrity_error
  replay existing tx

-- The row of the movement in its table.
abbrev pub logged : InventoryTransaction → Db → Db
logged tx db = record db { transactions = tx ∷ db.transactions }

-- `tx.save(force_insert=True)` and what follows it; the key is unique in the table.
unfoldable pub save_and_move : InventoryTransaction → Post InventoryTransaction
save_and_move tx db =
    if is_some (find_key tx.idempotency_key db.transactions)
    then recover tx db
    else move_stock tx (logged tx db)

unfoldable pub publish :
    List InventoryTransaction → InventoryTransaction → Post InventoryTransaction
publish cleaned tx = do full_clean cleaned tx; save_and_move tx

unfoldable pub post_found :
    List InventoryTransaction
    → InventoryTransaction
    → Option InventoryTransaction
    → Post InventoryTransaction
post_found cleaned tx none = publish cleaned tx
post_found cleaned tx (some existing) = replay existing tx

unfoldable pub post_seeing :
    (first cleaned : List InventoryTransaction) → InventoryTransaction → Post InventoryTransaction
post_seeing first cleaned tx =
    atomic (post_found cleaned tx (find_key (truthy tx.idempotency_key) first))

-- With no other session committing meanwhile.
unfoldable pub post_inventory_transaction : InventoryTransaction → Post InventoryTransaction
post_inventory_transaction tx db = post_seeing db.transactions db.transactions tx db
