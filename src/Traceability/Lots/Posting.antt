-- ===== src/Traceability/Lots/Posting.antt =====
-- What a call of `post_lot_transaction` and of `reserve_lot` has done when it returns.
use mrp_django.Inventory.Model.{type_eq}
use mrp_django.Prelude.{
  >>=-ok, List, Option, Option-cases, Result, ap, arith, err, inl, inr, int_laws, leb_ℤ, lookup,
  nat_eq, none, not, ok, option_eq, pair_eq, pos, pure, raise_if, raise_if-ok, refl, roll_back,
  some, text_eq, true, ℕ, ℤ, ◌&&◌, ◌+ℤ◌, ◌<ℤ◌, ◌||◌, ◌∙◌, ◌∷◌, ◌≡◌, ◌≤ℤ◌,
}
use mrp_django.Traceability.Lots.Balances.{
  AllCovered, Changed-trans, allocated_at, ensure_row-Changed, on_hand_at,
}
use mrp_django.Traceability.Lots.Effect.{lot_effect, move_lot-Entered}
use mrp_django.Traceability.Lots.Service.{
  Db, Error, Lot, LotBalance, LotReservation, LotStatus, LotTransaction, create_reservation,
  ensure_and_move, ensure_row, find_key, free, is_available, is_movable, key_reused, leaves,
  lot_blocked, post_body, post_lot_transaction, post_new, quantity_not_positive, replay,
  replay_or_post, reserve_body, row_at, same_movement, save_row,
}

-- How a call that returns `t` went.
pub data Posted (first : List LotTransaction) (tx : LotTransaction) (held : LotStatus) (db : Db)
    (t : LotTransaction) (db' : Db) : Type 0 where
  replayed :
      find_key tx.idempotency_key first ≡ some t
      → same_movement t tx ≡ true
      → db' ≡ db
      → Posted first tx held db t db'
  posted :
      t ≡ tx
      → pos 0 <ℤ tx.quantity
      → (is_movable held || not (leaves tx.transaction_type)) ≡ true
      → find_key tx.idempotency_key db.transactions ≡ none
      → db'.transactions ≡ tx ∷ db.transactions
      → db'.reservations ≡ db.reservations
      → ((i l : ℕ) → on_hand_at db' i l ≡ on_hand_at db i l +ℤ lot_effect tx i l)
      → ((i l : ℕ) → allocated_at db' i l ≡ allocated_at db i l)
      → (AllCovered db → AllCovered db')
      → Posted first tx held db t db'

-- Every outcome of a call.
abbrev pub Posts :
    List LotTransaction
    → LotTransaction
    → LotStatus
    → Db
    → Result Error LotTransaction × Db
    → Type 0
Posts first tx held db (ok t, db') = Posted first tx held db t db'
Posts first tx held db (err e, db') = db' ≡ db

post_new-Posted :
    (first : List LotTransaction) (held : LotStatus) (tx t : LotTransaction) (db db' : Db)
    → pos 0 <ℤ tx.quantity
    → post_new held tx db ≡ (ok t, db')
    → Posted first tx held db t db'
unfolding post_new ensure_and_move
post_new-Posted first held tx t db db' positive e =
    let (_, s, e1, r1) =
      >>=-ok (raise_if (not (is_movable held) && leaves tx.transaction_type) lot_blocked)
        (λ _. ensure_and_move tx) db e in
    let (permitted, same) = raise_if-ok _ lot_blocked db s e1 in
    let one = ensure_row-Changed tx.lot tx.from_location db in
    let two = ensure_row-Changed tx.lot tx.to_location (ensure_row tx.lot tx.from_location db) in
    let (is_tx, m) = move_lot-Entered tx t _ db' (omega (int_laws, positive)) (rw same at r1) in
    let all = Changed-trans (Changed-trans one two) m.changed in
    posted is_tx positive (ground (arith, permitted)) (rw (← one.log, ← two.log) m.new)
      (m.log ∙ ap (λ ts. tx ∷ ts) (two.log ∙ one.log)) (m.reserved ∙ all.reserved)
      (λ i l. rw (m.balances) (rw (all.on_hand i l) (omega int_laws)))
      (λ i l. rw (m.balances) (rw (all.allocated i l) (omega int_laws)))
      (λ h i l. rw (m.balances) (all.covered h i l))

replay-Posted :
    (first : List LotTransaction) (held : LotStatus) (old tx t : LotTransaction) (db db' : Db)
    → find_key tx.idempotency_key first ≡ some old
    → replay old tx db ≡ (ok t, db')
    → Posted first tx held db t db'
unfolding replay
replay-Posted first held old tx t db db' seen e =
    let (_, s, e1, r1) =
      >>=-ok (raise_if (not (same_movement old tx)) key_reused) (λ _. pure old) db e in
    let kept : old ≡ t = ground arith in
    let (same, still) = raise_if-ok _ key_reused db s e1 in
    replayed (rw (← kept) seen) (ground (arith, same)) (ground (arith, still))

post_body-Posted :
    (first : List LotTransaction) (held : LotStatus) (tx t : LotTransaction) (db db' : Db)
    → post_body first held tx db ≡ (ok t, db')
    → Posted first tx held db t db'
unfolding post_body replay_or_post
post_body-Posted first held tx t db db' e =
    let (_, s, e1, r1) =
      >>=-ok (raise_if (leb_ℤ tx.quantity (pos 0)) quantity_not_positive)
        (λ _. replay_or_post held tx (find_key tx.idempotency_key first)) db e in
    let (positive, still) = raise_if-ok _ quantity_not_positive db s e1 in
    by_found (find_key tx.idempotency_key first) refl (rw still at r1) (ground arith)
  where
    by_found :
        (o : Option LotTransaction)
        → find_key tx.idempotency_key first ≡ o
        → replay_or_post held tx o db ≡ (ok t, db')
        → pos 0 <ℤ tx.quantity
        → Posted first tx held db t db'
    by_found none seen r q = post_new-Posted first held tx t db db' q r
    by_found (some old) seen r q = replay-Posted first held old tx t db db' seen r

-- However the reads of a call interleave with other sessions: a call that raises has changed
-- nothing; a call that returns has replayed an equal transaction without any change, or logged one
-- new row under a new key, for a positive quantity, out of stock only where the status of the lot
-- allows it, with exactly the effect of its type on the stock of each lot at each location, without
-- any effect on what is allocated, and with every allocation still covered if it was.
pub post_lot_transaction-Posts :
    (first : List LotTransaction) (held : LotStatus) (tx : LotTransaction) (db : Db)
    → Posts first tx held db (post_lot_transaction first held tx db)
unfolding post_lot_transaction
post_lot_transaction-Posts first held tx db = by_result (post_body first held tx db) refl
  where
    by_result :
        (p : Result Error LotTransaction × Db)
        → post_body first held tx db ≡ p
        → Posts first tx held db (roll_back db p)
    by_result (ok t, db') e = post_body-Posted first held tx t db db' e
    by_result (err x, db') e = refl

-- What a successful reservation has found and written.
pub record Reserved (lot : Lot) (location : ℕ) (quantity : ℤ) (db : Db) (r : LotReservation)
    (db' : Db) : Type 0 where
  pub row : LotBalance
  pub positive : pos 0 <ℤ quantity
  pub usable : is_available lot.status ≡ true
  pub found : lookup (lot.pk, location) db.balances ≡ some row
  pub enough : quantity ≤ℤ free row
  pub returned : r ≡ record { lot = lot.pk; location = location; quantity = quantity }
  pub written :
      db'
      ≡ record (save_row lot.pk location
          (record row { allocated = row.allocated +ℤ quantity })
          db) { reservations = r ∷ db.reservations }

pub reserve_body-Reserved :
    (lot : Lot) (location : ℕ) (quantity : ℤ) (r : LotReservation) (db db' : Db)
    → reserve_body lot location quantity db ≡ (ok r, db')
    → Reserved lot location quantity db r db'
unfolding reserve_body row_at create_reservation save_row
reserve_body-Reserved lot location quantity r db db' e =
    elim (Option-cases (lookup (lot.pk, location) db.balances)) [
      | inl n ↦ ground (arith, n)
      | inr (b, f) ↦ record {
        row = b;
        positive = ground (arith, f);
        usable = ground (arith, f);
        found = f;
        enough = ground (arith, f);
        returned = ground (arith, f);
        written = ground (arith, f);
      }
    ]
