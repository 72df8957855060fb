-- ===== src/Inventory/Ledger.antt =====
-- The stock as an abstract ledger: every balance is its opening value and the sum of the effects
-- of the logged movements. Any sequence of calls, of any number of sessions, keeps that.
use mrp_django.Inventory.Balances.{on_hand_at}
use mrp_django.Inventory.Effect.{AllCovered, AllNonneg, effect}
use mrp_django.Inventory.Model.{
  Db, Error, InventoryTransaction, location_id, production_issue, type_eq,
}
use mrp_django.Inventory.Posting.{
  Posted, Posts, entered, post_seeing-Posted, post_seeing-Posts, replayed,
}
use mrp_django.Inventory.Service.{
  find_key, matches, post_found, post_inventory_transaction, post_seeing, replay, truthy,
}
use mrp_django.Prelude.{
  ==_iff, List, Option, Result, Text, [], arith, err, int_laws, nat_eq, none, ok, option_eq,
  pair_eq, pos, refl, some, text_eq, true, ℕ, ℤ, ◌+ℤ◌, ◌∷◌, ◌≡◌, ◌≢◌,
}

-- The net of a log.
unfoldable pub net : List InventoryTransaction → ℕ → ℕ → ℤ
net [] i l = pos 0
net (tx ∷ txs) i l = effect tx i l +ℤ net txs i l

module _ (opening : ℕ → ℕ → ℤ) where
  -- The tables implement the ledger that began with `opening`, and no balance is negative.
  pub record IsReconciled (db : Db) : Type 0 where
    pub balanced : (i l : ℕ) → on_hand_at db i l ≡ opening i l +ℤ net db.transactions i l
    pub nonneg : AllNonneg db

  Posted-IsReconciled :
      (first : List InventoryTransaction) (tx row : InventoryTransaction) (db db' : Db)
      → Posted first tx db row db'
      → IsReconciled db
      → IsReconciled db'
  unfolding net
  Posted-IsReconciled first tx row db db' (replayed m r same) h = rw same h
  Posted-IsReconciled first tx row db db' (entered is_tx fresh e) h = record {
    balanced = λ i l. rw (e.on_hand i l, e.log, h.balanced i l) (omega int_laws);
    nonneg = e.nonneg h.nonneg;
  }

  pub post_seeing-IsReconciled :
      (first cleaned : List InventoryTransaction) (tx : InventoryTransaction) (db : Db)
      → IsReconciled db
      → IsReconciled (post_seeing first cleaned tx db).1
  post_seeing-IsReconciled first cleaned tx db h =
      by_result (post_seeing first cleaned tx db) (post_seeing-Posts first cleaned tx db)
    where
      by_result :
          (p : Result Error InventoryTransaction × Db) → Posts first tx db p → IsReconciled p.1
      by_result (ok row, db') posted = Posted-IsReconciled first tx row db db' posted h
      by_result (err x, db') same = rw same h

-- One call, with what its first query and its validation saw of the log.
pub record Call : Type 0 where
  pub tx : InventoryTransaction
  pub first : List InventoryTransaction
  pub cleaned : List InventoryTransaction

-- The calls of all sessions in the order of their commits.
unfoldable pub run : List Call → Db → Db
run [] db = db
run (c ∷ cs) db = run cs (post_seeing c.first c.cleaned c.tx db).1

-- If each balance is its opening value plus the net effect of the logged movements, and none is
-- negative, the same holds after any sequence of calls, with any interleaving of their queries.
pub run-IsReconciled :
    (opening : ℕ → ℕ → ℤ) (cs : List Call) (db : Db)
    → IsReconciled opening db
    → IsReconciled opening (run cs db)
unfolding run
run-IsReconciled opening [] db h = h
run-IsReconciled opening (c ∷ cs) db h =
    run-IsReconciled opening cs (post_seeing c.first c.cleaned c.tx db).1
      (post_seeing-IsReconciled opening c.first c.cleaned c.tx db h)

-- A movement that is not a consumption by production leaves every reservation covered by stock, if
-- every one was.
pub post_seeing-AllCovered :
    (first cleaned : List InventoryTransaction) (tx : InventoryTransaction) (db : Db)
    → tx.transaction_type ≢ production_issue
    → AllCovered db
    → AllCovered (post_seeing first cleaned tx db).1
post_seeing-AllCovered first cleaned tx db ne h =
    by_result (post_seeing first cleaned tx db) (post_seeing-Posts first cleaned tx db)
  where
    covered : (row : InventoryTransaction) (db' : Db) → Posted first tx db row db' → AllCovered db'
    covered row db' (replayed m r same) = rw same h
    covered row db' (entered is_tx fresh e) = e.covered ne h

    by_result : (p : Result Error InventoryTransaction × Db) → Posts first tx db p → AllCovered p.1
    by_result (ok row, db') posted = covered row db' posted
    by_result (err x, db') same = rw same h

matches_refl : (tx : InventoryTransaction) → matches tx tx ≡ true
unfolding matches
matches_refl tx = ground (
  arith,
  (==_iff tx.transaction_type tx.transaction_type).1 refl,
  (==_iff (location_id tx.from_location) (location_id tx.from_location)).1 refl,
  (==_iff (location_id tx.to_location) (location_id tx.to_location)).1 refl,
  (==_iff tx.reference_type tx.reference_type).1 refl,
  (==_iff tx.reference_id tx.reference_id).1 refl,
)

find_key-head :
    (tx : InventoryTransaction) (txs : List InventoryTransaction) (k : Text)
    → tx.idempotency_key ≡ some k
    → find_key (some k) (tx ∷ txs) ≡ some tx
unfolding find_key
find_key-head tx txs k e = ground (arith, e, (==_iff tx.idempotency_key (some k)).1 e)

truthy-some : (o : Option Text) (k : Text) → truthy o ≡ some k → o ≡ some k
truthy-some none k e = cc
truthy-some (some []) k e = cc
truthy-some (some (c ∷ s)) k e = e

post_seeing-found :
    (first cleaned : List InventoryTransaction) (tx old : InventoryTransaction) (db : Db)
    → find_key (truthy tx.idempotency_key) first ≡ some old
    → matches old tx ≡ true
    → post_seeing first cleaned tx db ≡ (ok old, db)
unfolding post_seeing post_found replay
post_seeing-found first cleaned tx old db found same = ground (arith, found, same)

-- A movement that has a key and was accepted can be sent again with it: the call returns the same
-- row and changes nothing.
pub post_inventory_transaction-again :
    (tx row : InventoryTransaction) (k : Text) (db db' : Db)
    → truthy tx.idempotency_key ≡ some k
    → post_inventory_transaction tx db ≡ (ok row, db')
    → post_inventory_transaction tx db' ≡ (ok row, db')
unfolding post_inventory_transaction
post_inventory_transaction-again tx row k db db' key e =
    by_kind (post_seeing-Posted db.transactions db.transactions tx row db db' e)
  where
    by_kind :
        Posted db.transactions tx db row db'
        → post_seeing db'.transactions db'.transactions tx db' ≡ (ok row, db')
    by_kind (replayed m r same) = rw same (rw same at e)
    by_kind (entered is_tx fresh stock) = rw is_tx (
        post_seeing-found db'.transactions db'.transactions tx tx db'
          (rw (key, stock.log) (find_key-head tx db.transactions k (truthy-some _ k key)))
          (matches_refl tx))
