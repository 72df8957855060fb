-- ===== src/Traceability/Serials/Posting.antt =====
-- What `post_serial_transaction` has found and written.
use mathlib.Core.List.{Memᴰ}
use mrp_django.Inventory.Model.{type_eq}
use mrp_django.Prelude.{
  ==_iff, >>=-ok, Bool-cases, List, Option, Option-cases, Result, Text, [], ap, arith, err, false,
  if◌then◌else◌, inl, inr, insert, lookup, lookup-insert, modify, nat_eq, none, ok, option_eq,
  pair_eq, pure, raise_if, raise_if-ok, refl, roll_back, some, sym, text_eq, ℕ, ◌&&◌, ◌==◌, ◌>>=◌,
  ◌>>◌, ◌∙◌, ◌∷◌, ◌≡◌, ◌≢◌,
}
use mrp_django.Traceability.Serials.Service.{
  Db, Error, SerialNumber, SerialStatus, SerialTransaction, SerialTransactionType, add_unless,
  append_event, available, block, blocked, create, create_row, find_key, in_production, install,
  installed, is_missing, is_move, issue, mapped, move, post_found, post_serial_transaction, remove,
  replay_or_post, reserve, reserved, save_serial, scrap, scrapped, serial_at, serial_event, ship,
  shipped, target_required, updated, write_transaction,
}

serial_at-ok :
    (pk : ℕ) (s : SerialNumber) (db db' : Db)
    → serial_at pk db ≡ (ok s, db')
    → (lookup pk db.serials ≡ some s) × (db' ≡ db)
unfolding serial_at
serial_at-ok pk s db db' e = elim (Option-cases (lookup pk db.serials)) [
  | inl n ↦ ground (arith, n)
  | inr (t, f) ↦ (ground (arith, f), ground (arith, f))
]

-- How a call of `post_serial_transaction` that returns `t` went, by its steps.
pub data Written (first : List SerialTransaction) (tx : SerialTransaction) (db : Db)
    (t : SerialTransaction) (db' : Db) : Type 0 where
  found_again : find_key tx.idempotency_key first ≡ some t → db' ≡ db → Written first tx db t db'
  wrote :
      (s : SerialNumber)
      → t ≡ tx
      → (is_move tx.transaction_type && is_missing tx.to_location) ≡ false
      → lookup tx.serial db.serials ≡ some s
      → find_key tx.idempotency_key db.transactions ≡ none
      → db'.serials ≡ insert tx.serial (updated tx s) db.serials
      → db'.transactions ≡ tx ∷ db.transactions
      → db'.components ≡ db.components
      → Written first tx db t db'

abbrev pub Writes :
    List SerialTransaction → SerialTransaction → Db → Result Error SerialTransaction × Db → Type 0
Writes first tx db (ok t, db') = Written first tx db t db'
Writes first tx db (err e, db') = db' ≡ db

add_unless-ok :
    (found : Option SerialTransaction) (tx : SerialTransaction) (db db' : Db)
    → add_unless found tx db ≡ (ok tt, db')
    → (found ≡ none) × (db' ≡ record db { transactions = tx ∷ db.transactions })
add_unless-ok none tx db db' e = (refl, ground arith)
add_unless-ok (some t) tx db db' e = cc

write_transaction-Written :
    (first : List SerialTransaction) (tx t : SerialTransaction) (s : SerialNumber) (db db' : Db)
    → lookup tx.serial db.serials ≡ some s
    → (is_move tx.transaction_type && is_missing tx.to_location) ≡ false
    → write_transaction tx s db ≡ (ok t, db')
    → Written first tx db t db'
unfolding write_transaction save_serial create_row append_event
write_transaction-Written first tx t s db db' found allowed e =
    let (_, mid, e1, r1) =
      >>=-ok (create_row tx) (λ _. modify (append_event (serial_event tx)) >> pure tx)
        (save_serial tx.serial (updated tx s) db) e in
    let (new, made) =
      add_unless-ok (find_key tx.idempotency_key db.transactions) tx
        (save_serial tx.serial (updated tx s) db) mid e1 in
    let last : db' ≡ append_event (serial_event tx) mid = ground arith in
    let all = last ∙ ap (append_event (serial_event tx)) made in
    let is_tx : t ≡ tx = ground arith in
    wrote s is_tx allowed found new (ap (λ (d : Db). d.serials) all)
      (ap (λ (d : Db). d.transactions) all) (ap (λ (d : Db). d.components) all)

post_found-Written :
    (first : List SerialTransaction) (tx t : SerialTransaction) (db db' : Db)
    → (serial_at tx.serial >>= post_found tx) db ≡ (ok t, db')
    → Written first tx db t db'
unfolding post_found
post_found-Written first tx t db db' e =
    let (s, mid, e1, r1) = >>=-ok (serial_at tx.serial) (post_found tx) db e in
    let (found, same) = serial_at-ok tx.serial s db mid e1 in
    let bad = is_move tx.transaction_type && is_missing tx.to_location in
    let (_, u, e2, r2) =
      >>=-ok (raise_if bad target_required) (λ _. write_transaction tx s) mid r1 in
    let (allowed, same2) = raise_if-ok bad target_required mid u e2 in
    write_transaction-Written first tx t s db db' found allowed (rw (same2, same) at r2)

pub post_serial_transaction-Writes :
    (first : List SerialTransaction) (tx : SerialTransaction) (db : Db)
    → Writes first tx db (post_serial_transaction first tx db)
unfolding post_serial_transaction
post_serial_transaction-Writes first tx db =
    by_found (find_key tx.idempotency_key first) refl
      (replay_or_post tx (find_key tx.idempotency_key first) db) refl
  where
    by_found :
        (o : Option SerialTransaction)
        → find_key tx.idempotency_key first ≡ o
        → (p : Result Error SerialTransaction × Db) → replay_or_post tx o db ≡ p
        → Writes first tx db (roll_back db p)
    by_found o seen (err x, db') e = refl
    by_found none seen (ok t, db') e = post_found-Written first tx t db db' e
    by_found (some old) seen (ok t, db') e =
        let kept : old ≡ t = ground arith in found_again (rw (← kept) seen) (ground arith)

-- The row that a key finds is in the table and has the key, and no row has a key that finds none.
find_key-some :
    (k : Text) (ts : List SerialTransaction) (t : SerialTransaction)
    → find_key k ts ≡ some t
    → Memᴰ t ts × (t.idempotency_key ≡ k)
unfolding find_key
find_key-some k [] t e = cc
find_key-some k (x ∷ ts) t e = elim (Bool-cases (x.idempotency_key == k)) [
  | inl y ↦
      let same : x ≡ t = ground (arith, y) in
      (Memᴰ.head (sym same), ground (arith, same, (==_iff x.idempotency_key k).0 y))
  | inr n ↦ let (m, key) = find_key-some k ts t (ground (arith, n)) in (Memᴰ.tail m, key)
]

find_key-none :
    (k : Text) (ts : List SerialTransaction) (t : SerialTransaction)
    → find_key k ts ≡ none
    → Memᴰ t ts
    → t.idempotency_key ≢ k
unfolding find_key
find_key-none k [] t e m key = elim m [ ]
find_key-none k (x ∷ ts) t e (Memᴰ.head same) key = ground (
  arith,
  same,
  (==_iff x.idempotency_key k).1
      (ap (λ (y : SerialTransaction). y.idempotency_key) (sym same) ∙ key),
)
find_key-none k (x ∷ ts) t e (Memᴰ.tail m) key = find_key-none k ts t (ground arith) m key

-- The status that a transaction gives a serial.
pub data Becomes : SerialTransactionType → SerialStatus → SerialStatus → Type 0 where
  creates : {s : SerialStatus} → Becomes create s available
  reserves : {s : SerialStatus} → Becomes reserve s reserved
  issues : {s : SerialStatus} → Becomes issue s in_production
  installs : {s : SerialStatus} → Becomes install s installed
  ships : {s : SerialStatus} → Becomes ship s shipped
  blocks : {s : SerialStatus} → Becomes block s blocked
  scraps : {s : SerialStatus} → Becomes scrap s scrapped
  moves : {s : SerialStatus} → Becomes move s s
  removes : {s : SerialStatus} → Becomes remove s s

mapped-Becomes : (t : SerialTransactionType) (s : SerialStatus) → Becomes t s (mapped t s)
mapped-Becomes create s = creates
mapped-Becomes reserve s = reserves
mapped-Becomes issue s = issues
mapped-Becomes install s = installs
mapped-Becomes ship s = ships
mapped-Becomes block s = blocks
mapped-Becomes scrap s = scraps
mapped-Becomes move s = moves
mapped-Becomes remove s = removes

-- A new transaction: what it found, and what it leaves.
pub record Logged (tx : SerialTransaction) (db db' : Db) : Type 0 where
  pub old : SerialNumber
  pub new : SerialNumber
  pub found : lookup tx.serial db.serials ≡ some old
  pub has_target : tx.transaction_type ≡ move → tx.to_location ≢ none
  pub new_key :
      (t : SerialTransaction) → Memᴰ t db.transactions → t.idempotency_key ≢ tx.idempotency_key
  pub status : Becomes tx.transaction_type old.status new.status
  pub placed : (l : ℕ) → tx.to_location ≡ some l → new.current_location ≡ some l
  pub stays : tx.to_location ≡ none → new.current_location ≡ old.current_location
  pub serials :
      (k : ℕ) → lookup k db'.serials ≡ (if tx.serial == k then some new else lookup k db.serials)
  pub transactions : db'.transactions ≡ tx ∷ db.transactions
  pub components : db'.components ≡ db.components

pub data Posted (first : List SerialTransaction) (tx : SerialTransaction) (db : Db)
    (t : SerialTransaction) (db' : Db) : Type 0 where
  replayed :
      Memᴰ t first → t.idempotency_key ≡ tx.idempotency_key → db' ≡ db → Posted first tx db t db'
  logged : t ≡ tx → Logged tx db db' → Posted first tx db t db'

abbrev pub Posts :
    List SerialTransaction → SerialTransaction → Db → Result Error SerialTransaction × Db → Type 0
Posts first tx db (ok t, db') = Posted first tx db t db'
Posts first tx db (err e, db') = db' ≡ db

Written-Posted :
    (first : List SerialTransaction) (tx t : SerialTransaction) (db db' : Db)
    → Written first tx db t db'
    → Posted first tx db t db'
unfolding updated
Written-Posted first tx t db db' (found_again seen same) =
    let (m, key) = find_key-some tx.idempotency_key first t seen in replayed m key same
Written-Posted first tx t db db' (wrote s is_tx allowed found new serials log links) =
    logged is_tx (record {
      old = s;
      new = updated tx s;
      found = found;
      has_target = λ is n. ground (arith, allowed, is, n);
      new_key = λ x. find_key-none tx.idempotency_key db.transactions x new;
      status = mapped-Becomes tx.transaction_type s.status;
      placed = λ l q. ground (arith, q);
      stays = λ q. ground (arith, q);
      serials = λ k. ap (lookup k) serials ∙ lookup-insert tx.serial k (updated tx s) db.serials;
      transactions = log;
      components = links;
    })

-- A refused call changes nothing. One that returns has replayed a row with its key that its first
-- read saw, whatever else that row says, changing nothing; or has logged a row whose key no row of
-- the table has, with a target if it is a move, has given the serial the status of its type and the
-- place of its target, if it has one, and has left every other serial and every link alone.
pub post_serial_transaction-Posts :
    (first : List SerialTransaction) (tx : SerialTransaction) (db : Db)
    → Posts first tx db (post_serial_transaction first tx db)
post_serial_transaction-Posts first tx db =
    by_result (post_serial_transaction first tx db) (post_serial_transaction-Writes first tx db)
  where
    by_result :
        (p : Result Error SerialTransaction × Db) → Writes first tx db p → Posts first tx db p
    by_result (ok t, db') w = Written-Posted first tx t db db' w
    by_result (err x, db') same = same
