-- ===== src/Traceability/Lots/Effect.antt =====
-- The effect of a lot transaction, stated by itself, and what the stages of
-- `post_lot_transaction` do.
use mrp_django.Inventory.Model.{type_eq}
use mrp_django.Prelude.{
  >>=-ok, Bool, Option, Option-cases, ap, arith, false, inl, inr, int_laws, lookup, modify, nat_eq,
  none, ok, option_eq, pair_eq, pos, pure, refl, some, text_eq, true, ℕ, ℤ, ◌+ℤ◌, ◌-ℤ◌, ◌>>◌, ◌∙◌,
  ◌∷◌, ◌≡◌, ◌≤ℤ◌,
}
use mrp_django.Traceability.Lots.Balances.{
  Changed, Changed-trans, Changed-nothing, entry, nothing, save_row-Changed,
}
use mrp_django.Traceability.Lots.Service.{
  Act, Db, LotBalance, LotTransaction, LotTransactionType, add_unless, adjustment, append_event,
  arrive, arrives, create_row, find_key, free, issue, leaves, lot_event, merge, move_lot, put_in,
  receipt, record_move, row_at, save_row, split, take_out, transfer, when,
}

-- What each type of transaction does to the stock of its lot, by location.
abbrev pub lot_effect_of : LotTransactionType → LotTransaction → ℕ → ℕ → ℤ
lot_effect_of receipt tx = entry tx.lot tx.to_location tx.quantity
lot_effect_of issue tx = entry tx.lot tx.from_location (pos 0 -ℤ tx.quantity)
lot_effect_of transfer tx = λ i l.
    entry tx.lot tx.from_location (pos 0 -ℤ tx.quantity) i l
    +ℤ entry tx.lot tx.to_location tx.quantity i l
lot_effect_of adjustment tx = nothing
lot_effect_of LotTransactionType.status tx = nothing
lot_effect_of split tx = nothing
lot_effect_of merge tx = nothing

unfoldable pub lot_effect : LotTransaction → ℕ → ℕ → ℤ
lot_effect tx = lot_effect_of tx.transaction_type tx

pub Changed-same_values :
    {d a d' a' : ℕ → ℕ → ℤ} {db db' : Db}
    → Changed d a db db'
    → ((i l : ℕ) → d i l ≡ d' i l)
    → ((i l : ℕ) → a i l ≡ a' i l)
    → Changed d' a' db db'
Changed-same_values c p q = record {
  on_hand = λ i l. rw (← p i l) (c.on_hand i l);
  allocated = λ i l. rw (← q i l) (c.allocated i l);
  covered = c.covered;
  log = c.log;
  reserved = c.reserved;
}

pub entry_zero :
    (lot : ℕ) (loc : Option ℕ) (d : ℤ) → d ≡ pos 0 → (i l : ℕ) → entry lot loc d i l ≡ pos 0
entry_zero lot loc d e i l = ground (arith, e)

pub take_out-Changed :
    (tx : LotTransaction) (loc : Option ℕ) (db db' : Db)
    → pos 0 ≤ℤ tx.quantity
    → take_out tx loc db ≡ (ok tt, db')
    → Changed (entry tx.lot loc (pos 0 -ℤ tx.quantity)) nothing db db'
unfolding take_out free row_at
take_out-Changed tx none db db' positive e = cc
take_out-Changed tx (some l) db db' positive e =
    elim (Option-cases (lookup (tx.lot, l) db.balances)) [
      | inl n ↦ ground (arith, n)
      | inr (b, f) ↦
          let new : LotBalance = record b { on_hand = b.on_hand -ℤ tx.quantity } in
          let enough : tx.quantity ≤ℤ b.on_hand -ℤ b.allocated = ground (arith, f) in
          let written : db' ≡ save_row tx.lot l new db = ground (arith, f) in
          rw written (
            Changed-same_values
              (save_row-Changed tx.lot l b new db f (λ h. (h.0, omega (int_laws, h, enough))))
              (λ i m. ap (λ d. entry tx.lot (some l) d i m) (omega int_laws))
              (entry_zero tx.lot (some l) _ (omega int_laws)))
    ]

pub put_in-Changed :
    (tx : LotTransaction) (loc : Option ℕ) (db db' : Db)
    → pos 0 ≤ℤ tx.quantity
    → put_in tx loc db ≡ (ok tt, db')
    → Changed (entry tx.lot loc tx.quantity) nothing db db'
unfolding put_in row_at
put_in-Changed tx none db db' positive e = cc
put_in-Changed tx (some l) db db' positive e =
    elim (Option-cases (lookup (tx.lot, l) db.balances)) [
      | inl n ↦ ground (arith, n)
      | inr (b, f) ↦
          let new : LotBalance = record b { on_hand = b.on_hand +ℤ tx.quantity } in
          let written : db' ≡ save_row tx.lot l new db = ground (arith, f) in
          rw written (
            Changed-same_values
              (save_row-Changed tx.lot l b new db f (λ h. (h.0, omega (int_laws, h, positive))))
              (λ i m. ap (λ d. entry tx.lot (some l) d i m) (omega int_laws))
              (entry_zero tx.lot (some l) _ (omega int_laws)))
    ]

abbrev gate : Bool → (ℕ → ℕ → ℤ) → ℕ → ℕ → ℤ
gate true d = d
gate false d = nothing

when-Changed :
    (b : Bool) (m : Act (Unit {0})) (d : ℕ → ℕ → ℤ) (db db' : Db)
    → (m db ≡ (ok tt, db') → Changed d nothing db db')
    → when b m db ≡ (ok tt, db')
    → Changed (gate b d) nothing db db'
when-Changed true m d db db' c e = c e
when-Changed false m d db db' c e =
    let same : db' ≡ db = ground arith in rw same (Changed-nothing db)

gates-lot_effect :
    (ty : LotTransactionType) (tx : LotTransaction) (i l : ℕ)
    → gate (leaves ty) (entry tx.lot tx.from_location (pos 0 -ℤ tx.quantity)) i l
        +ℤ gate (arrives ty) (entry tx.lot tx.to_location tx.quantity) i l
      ≡ lot_effect_of ty tx i l
gates-lot_effect receipt tx i l = omega int_laws
gates-lot_effect issue tx i l = omega int_laws
gates-lot_effect transfer tx i l = refl
gates-lot_effect adjustment tx i l = omega int_laws
gates-lot_effect LotTransactionType.status tx i l = omega int_laws
gates-lot_effect split tx i l = omega int_laws
gates-lot_effect merge tx i l = omega int_laws

-- A key that is new, a row for it, and the effect of the transaction.
pub record Entered (tx : LotTransaction) (db db' : Db) : Type 0 where
  pub mid : Db
  pub changed : Changed (lot_effect tx) nothing db mid
  pub balances : db'.balances ≡ mid.balances
  pub reserved : db'.reservations ≡ mid.reservations
  pub new : find_key tx.idempotency_key db.transactions ≡ none
  pub log : db'.transactions ≡ tx ∷ db.transactions

add_unless-ok :
    (found : Option LotTransaction) (tx : LotTransaction) (db db' : Db)
    → add_unless found tx db ≡ (ok tt, db')
    → (found ≡ none) × (db' ≡ record db { transactions = tx ∷ db.transactions })
add_unless-ok none tx db db' e = (refl, ground arith)
add_unless-ok (some t) tx db db' e = cc

record_move-ok :
    (tx t : LotTransaction) (db db' : Db)
    → record_move tx db ≡ (ok t, db')
    → (t ≡ tx)
      × (find_key tx.idempotency_key db.transactions ≡ none)
      × (db' ≡ append_event (lot_event tx) (record db { transactions = tx ∷ db.transactions }))
unfolding record_move create_row
record_move-ok tx t db db' e =
    let (_, mid, e1, rest) =
      >>=-ok (create_row tx) (λ _. modify (append_event (lot_event tx)) >> pure tx) db e in
    let (new, made) = add_unless-ok _ tx db mid e1 in
    (ground arith, new, rw (← made) (ground arith))

pub move_lot-Entered :
    (tx t : LotTransaction) (db db' : Db)
    → pos 0 ≤ℤ tx.quantity
    → move_lot tx db ≡ (ok t, db')
    → (t ≡ tx) × Entered tx db db'
unfolding move_lot arrive append_event lot_effect
move_lot-Entered tx t db db' positive e =
    let (_, one, e1, r1) =
      >>=-ok (when (leaves tx.transaction_type) (take_out tx tx.from_location)) (λ _. arrive tx) db
        e in
    let (_, two, e2, r2) =
      >>=-ok (when (arrives tx.transaction_type) (put_in tx tx.to_location)) (λ _. record_move tx)
        one r1 in
    let out =
      when-Changed (leaves tx.transaction_type) (take_out tx tx.from_location) _ db one
        (take_out-Changed tx tx.from_location db one positive) e1 in
    let inn =
      when-Changed (arrives tx.transaction_type) (put_in tx tx.to_location) _ one two
        (put_in-Changed tx tx.to_location one two positive) e2 in
    let both = Changed-trans out inn in
    let (same, new, made) = record_move-ok tx t two db' r2 in
    (
      same,
      record {
        mid = two;
        changed =
            Changed-same_values both (gates-lot_effect tx.transaction_type tx)
              (λ i l. omega int_laws);
        balances = ap (λ (d : Db). d.balances) made;
        reserved = ap (λ (d : Db). d.reservations) made;
        new = rw (← both.log) new;
        log = ap (λ (d : Db). d.transactions) made ∙ ap (λ ts. tx ∷ ts) both.log;
      },
    )
