-- ===== src/Inventory/Posting.antt =====
-- `post_inventory_transaction` as a whole: replays, refusals and the effect of a new movement.
use mathlib.Core.List.{Memᴰ}
use mathlib.Core.Path.{subst}
use mrp_django.Inventory.Balances.{Keeps, ensure_balances-Keeps}
use mrp_django.Inventory.Effect.{Entered, Entered-keep, effect}
use mrp_django.Inventory.Enter.{enter-Entered}
use mrp_django.Inventory.Keys.{Repeats, find_key-Repeats, is_some-apart}
use mrp_django.Inventory.Model.{
  Balance, Db, Error, InventoryTransaction, is_bad_transfer, not_positive,
}
use mrp_django.Inventory.Service.{
  crosses_plants, ensure_balances, enter, enter_and_return, find_key, full_clean,
  involved_locations, is_some, lock_and_enter, locked_balances, logged, move_stock, post_found,
  post_inventory_transaction, post_seeing, publish, recover, replay, require, save_and_move, truthy,
}
use mrp_django.Prelude.{
  >>=-ok, Bool-cases, List, Option, Option-cases, Result, Table, Text, arith, atomic-ok, err, false,
  inl, inr, none, ok, refl, roll_back, some, ℕ, ◌>>=◌, ◌∷◌, ◌≡◌, ◌≢◌, ◌⊎◌,
}
use mrp_django.Traceability.Lots.Service.{free}

-- A call that returns `row` has either found it under the key, carrying the same movement, and done
-- nothing, or has entered the new one: one line in the log, and its effect on the stock.
pub data Posted (first : List InventoryTransaction) (tx : InventoryTransaction) (db : Db)
    (row : InventoryTransaction) (db' : Db) : Type 0 where
  replayed :
      Memᴰ row first ⊎ Memᴰ row db.transactions
      → Repeats tx row
      → db' ≡ db
      → Posted first tx db row db'
  entered :
      row ≡ tx
      → ((k : Text) (old : InventoryTransaction)
          → tx.idempotency_key ≡ some k
          → Memᴰ old db.transactions
          → old.idempotency_key ≢ some k)
      → Entered tx.transaction_type
          (effect tx)
          (record db { transactions = tx ∷ db.transactions })
          db'
      → Posted first tx db row db'

-- What a call that began at `db` has done, by how it ended.
abbrev pub Posts :
    List InventoryTransaction
    → InventoryTransaction
    → Db
    → Result Error InventoryTransaction × Db
    → Type 0
Posts first tx db (err _, db') = db' ≡ db
Posts first tx db (ok row, db') = Posted first tx db row db'

involved_locations-keeps :
    (tx : InventoryTransaction) (db db' : Db) (ids : List ℕ)
    → involved_locations tx db ≡ (ok ids, db')
    → db' ≡ db
unfolding involved_locations require
involved_locations-keeps tx db db' ids e = ground arith

locked_balances-ok :
    (item : ℕ) (ids : List ℕ) (db db' : Db) (rows : Table (ℕ × ℕ) Balance)
    → locked_balances item ids db ≡ (ok rows, db')
    → (db' ≡ ensure_balances item ids db) × (rows ≡ db'.balances)
unfolding locked_balances
locked_balances-ok item ids db db' rows e = ground arith

lock_and_enter-ok :
    (tx row : InventoryTransaction) (ids : List ℕ) (db db' : Db)
    → lock_and_enter tx ids db ≡ (ok row, db')
    → (crosses_plants tx.from_location tx.to_location ≡ false)
      × ((locked_balances tx.item ids >>= enter_and_return tx) db ≡ (ok row, db'))
unfolding lock_and_enter
lock_and_enter-ok tx row ids db db' e = ground arith

enter_and_return-ok :
    (tx row : InventoryTransaction) (rows : Table (ℕ × ℕ) Balance) (db db' : Db)
    → enter_and_return tx rows db ≡ (ok row, db')
    → (row ≡ tx) × (enter rows tx db ≡ (ok tt, db'))
unfolding enter_and_return
enter_and_return-ok tx row rows db db' e = ground arith

move_stock-Entered :
    (tx row : InventoryTransaction) (db db' : Db)
    → is_bad_transfer tx ≡ false
    → not_positive tx ≡ false
    → move_stock tx db ≡ (ok row, db')
    → (row ≡ tx) × Entered tx.transaction_type (effect tx) db db'
unfolding move_stock
move_stock-Entered tx row db db' good positive e =
    let (ids, s1, e1, r1) = >>=-ok (involved_locations tx) (lock_and_enter tx) db e in
    let (_, l2) = lock_and_enter-ok tx row ids s1 db' r1 in
    let (rows, s2, e2, r2) = >>=-ok (locked_balances tx.item ids) (enter_and_return tx) s1 l2 in
    let (same, at) = locked_balances-ok tx.item ids s1 s2 rows e2 in
    let (is_tx, stock) = enter_and_return-ok tx row rows s2 db' r2 in
    let start = involved_locations-keeps tx db s1 ids e1 in
    let locked : Keeps db s2 = rw (same, start) (ensure_balances-Keeps tx.item ids db) in
    (
      is_tx,
      Entered-keep tx.transaction_type (effect tx) db s2 db' locked
          (enter-Entered tx s2 db' (rw at at stock) good positive),
    )

full_clean-ok :
    (cleaned : List InventoryTransaction) (tx : InventoryTransaction) (db db' : Db)
    → full_clean cleaned tx db ≡ (ok tt, db')
    → (db' ≡ db) × (is_bad_transfer tx ≡ false) × (not_positive tx ≡ false)
unfolding full_clean
full_clean-ok cleaned tx db db' e = ground arith

replay-ok :
    (txs : List InventoryTransaction) (old tx row : InventoryTransaction) (db db' : Db)
    → find_key (truthy tx.idempotency_key) txs ≡ some old
    → replay old tx db ≡ (ok row, db')
    → Memᴰ row txs × Repeats tx row × (db' ≡ db)
unfolding replay
replay-ok txs old tx row db db' f e =
    let kept : old ≡ row = ground arith in
    let (m, r) = find_key-Repeats txs tx row (rw (← kept) f) (ground arith) in (m, r, ground arith)

recover-ok :
    (tx row : InventoryTransaction) (db db' : Db)
    → recover tx db ≡ (ok row, db')
    → Memᴰ row db.transactions × Repeats tx row × (db' ≡ db)
unfolding recover
recover-ok tx row db db' e =
    elim (Option-cases (find_key (truthy tx.idempotency_key) db.transactions)) [
      | inl n ↦ ground (arith, n)
      | inr (old, f) ↦ replay-ok db.transactions old tx row db db' f (ground (arith, f))
    ]

-- A movement that passed the validation, by how its insertion went.
pub save_and_move-Posted :
    (first : List InventoryTransaction) (tx row : InventoryTransaction) (db db' : Db)
    → is_bad_transfer tx ≡ false
    → not_positive tx ≡ false
    → save_and_move tx db ≡ (ok row, db')
    → Posted first tx db row db'
unfolding save_and_move
save_and_move-Posted first tx row db db' good positive e =
    elim (Bool-cases (is_some (find_key tx.idempotency_key db.transactions))) [
      | inl taken ↦
          let (m, r, same) = recover-ok tx row db db' (rw taken at e) in replayed (inr m) r same
      | inr new ↦
          let (is_tx, m) =
            move_stock-Entered tx row (logged tx db) db' good positive (rw new at e) in
          entered is_tx (λ k old is. is_some-apart tx.idempotency_key k db.transactions old is new)
            m
    ]

publish-Posted :
    (first cleaned : List InventoryTransaction) (tx row : InventoryTransaction) (db db' : Db)
    → publish cleaned tx db ≡ (ok row, db')
    → Posted first tx db row db'
unfolding publish
publish-Posted first cleaned tx row db db' e =
    let (_, s, e1, r1) = >>=-ok (full_clean cleaned tx) (λ _. save_and_move tx) db e in
    let (same, good, positive) = full_clean-ok cleaned tx db s e1 in
    save_and_move-Posted first tx row db db' good positive (rw same at r1)

post_found-Posted :
    (first cleaned : List InventoryTransaction) (tx : InventoryTransaction)
    (o : Option InventoryTransaction) (row : InventoryTransaction) (db db' : Db)
    → find_key (truthy tx.idempotency_key) first ≡ o
    → post_found cleaned tx o db ≡ (ok row, db')
    → Posted first tx db row db'
unfolding post_found
post_found-Posted first cleaned tx none row db db' f e =
    publish-Posted first cleaned tx row db db' e
post_found-Posted first cleaned tx (some old) row db db' f e =
    let (m, r, same) = replay-ok first old tx row db db' f e in replayed (inl m) r same

-- Whatever other sessions commit between the queries of a call, and however the call ends: a
-- refusal leaves the database as it was, and a success is a replay or a new entry. A replay changes
-- nothing and returns a row that its first query saw or that is in the log, and that has the key and
-- carries the same type, item, locations, quantity and reference. A new entry has a key, if any, that
-- no row of the log has; it adds one line to the log and has exactly the effect of the movement on
-- the stock of every item at every location, and none on what is reserved.
pub post_seeing-Posts :
    (first cleaned : List InventoryTransaction) (tx : InventoryTransaction) (db : Db)
    → Posts first tx db (post_seeing first cleaned tx db)
unfolding post_seeing
post_seeing-Posts first cleaned tx db =
    by_result (post_found cleaned tx (find_key (truthy tx.idempotency_key) first) db) refl
  where
    by_result :
        (p : Result Error InventoryTransaction × Db)
        → post_found cleaned tx (find_key (truthy tx.idempotency_key) first) db ≡ p
        → Posts first tx db (roll_back db p)
    by_result (ok row, db') e =
        post_found-Posted first cleaned tx (find_key (truthy tx.idempotency_key) first) row db db'
          refl e
    by_result (err x, db') e = refl

pub post_seeing-Posted :
    (first cleaned : List InventoryTransaction) (tx row : InventoryTransaction) (db db' : Db)
    → post_seeing first cleaned tx db ≡ (ok row, db')
    → Posted first tx db row db'
post_seeing-Posted first cleaned tx row db db' e =
    subst (Posts first tx db) e (post_seeing-Posts first cleaned tx db)

-- With a new key a successful call is no replay.
pub post_inventory_transaction-Entered :
    (tx row : InventoryTransaction) (db db' : Db)
    → find_key (truthy tx.idempotency_key) db.transactions ≡ none
    → find_key tx.idempotency_key db.transactions ≡ none
    → post_inventory_transaction tx db ≡ (ok row, db')
    → (row ≡ tx) × Entered tx.transaction_type (effect tx) (logged tx db) db'
unfolding post_inventory_transaction post_seeing publish
post_inventory_transaction-Entered tx row db db' new free e =
    let body =
      atomic-ok
        (post_found db.transactions tx (find_key (truthy tx.idempotency_key) db.transactions)) db
        e in
    let published : publish db.transactions tx db ≡ (ok row, db') =
      unfold post_found in rw new at body in
    let (_, s, e1, r1) =
      >>=-ok (full_clean db.transactions tx) (λ _. save_and_move tx) db published in
    let (same, good, positive) = full_clean-ok db.transactions tx db s e1 in
    move_stock-Entered tx row (logged tx db) db' good positive
      (unfold save_and_move in rw free at (rw same at r1))
