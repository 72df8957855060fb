-- ===== src/Traceability/Lots/Sound.antt =====
-- The lot tables under any sequence of calls: an abstract ledger, and the constraint on each row.
use mrp_django.Inventory.Model.{type_eq}
use mrp_django.Prelude.{
  List, Option-cases, Result, Text, [], ap, arith, err, inl, inr, int_laws, lookup, nat_eq, none,
  ok, option_eq, pair_eq, pos, refl, roll_back, some, text_eq, ℕ, ℤ, ◌+ℤ◌, ◌-ℤ◌, ◌∙◌, ◌∷◌, ◌≡◌,
  ◌≤ℤ◌,
}
use mrp_django.Traceability.Lots.Balances.{
  AllCovered, allocated_at, entry, on_hand_at, save_row-Changed,
}
use mrp_django.Traceability.Lots.Effect.{lot_effect}
use mrp_django.Traceability.Lots.Posting.{
  Posted, Posts, Reserved, post_lot_transaction-Posts, posted, replayed, reserve_body-Reserved,
}
use mrp_django.Traceability.Lots.Service.{
  Db, Error, Lot, LotBalance, LotReservation, LotStatus, LotTransaction, append_event,
  change_lot_status, find_key, free, post_lot_transaction, reserve_body, reserve_lot, save_row,
}

unfoldable pub net : List LotTransaction → ℕ → ℕ → ℤ
net [] i l = pos 0
net (tx ∷ txs) i l = lot_effect tx i l +ℤ net txs i l

unfoldable pub promised : List LotReservation → ℕ → ℕ → ℤ
promised [] i l = pos 0
promised (r ∷ rs) i l = entry r.lot (some r.location) r.quantity i l +ℤ promised rs i l

-- Each balance is what the log and the reservations say, nothing negative is allocated, and no
-- more than there is.
pub record IsSound (db : Db) : Type 0 where
  pub on_hand : (i l : ℕ) → on_hand_at db i l ≡ net db.transactions i l
  pub allocated : (i l : ℕ) → allocated_at db i l ≡ promised db.reservations i l
  pub covered : AllCovered db

post-IsSound :
    (first : List LotTransaction) (held : LotStatus) (tx : LotTransaction) (db : Db)
    → IsSound db
    → IsSound (post_lot_transaction first held tx db).1
unfolding net
post-IsSound first held tx db h =
    by_result (post_lot_transaction first held tx db) (post_lot_transaction-Posts first held tx db)
  where
    by_kind : (t : LotTransaction) (db' : Db) → Posted first tx held db t db' → IsSound db'
    by_kind t db' (replayed seen m same) = rw same h
    by_kind t db' (posted is_tx q permitted new log kept on_hand allocated covered) = record {
      on_hand = λ i l. rw (on_hand i l, log, h.on_hand i l) (omega int_laws);
      allocated = λ i l. rw (allocated i l, kept) (h.allocated i l);
      covered = covered h.covered;
    }

    by_result : (p : Result Error LotTransaction × Db) → Posts first tx held db p → IsSound p.1
    by_result (ok t, db') done = by_kind t db' done
    by_result (err x, db') same = rw same h

Reserved-IsSound :
    (lot : Lot) (location : ℕ) (quantity : ℤ) (r : LotReservation) (db db' : Db)
    → Reserved lot location quantity db r db'
    → IsSound db
    → IsSound db'
unfolding promised free save_row
Reserved-IsSound lot location quantity r db db' d h =
    let new : LotBalance = record d.row { allocated = d.row.allocated +ℤ quantity } in
    let enough : quantity ≤ℤ d.row.on_hand -ℤ d.row.allocated = d.enough in
    let c =
      save_row-Changed lot.pk location d.row new db d.found
        (λ k. (omega (int_laws, k, d.positive), omega (int_laws, enough))) in
    rw (d.written, d.returned)
      (record {
        on_hand = λ i l. rw (c.on_hand i l, h.on_hand i l) (grind (int_laws));
        allocated = λ i l. rw (c.allocated i l, h.allocated i l) (grind (int_laws));
        covered = c.covered h.covered;
      })

reserve-IsSound :
    (lot : Lot) (location : ℕ) (quantity : ℤ) (db : Db)
    → IsSound db
    → IsSound (reserve_lot lot location quantity db).1
unfolding reserve_lot
reserve-IsSound lot location quantity db h = by_result (reserve_body lot location quantity db) refl
  where
    by_result :
        (p : Result Error LotReservation × Db)
        → reserve_body lot location quantity db ≡ p
        → IsSound (roll_back db p).1
    by_result (ok r, db') e =
        Reserved-IsSound lot location quantity r db db'
          (reserve_body-Reserved lot location quantity r db db' e) h
    by_result (err x, db') e = h

relabel-IsSound :
    (lot : ℕ) (new : LotStatus) (now : Text) (db : Db)
    → IsSound db
    → IsSound (change_lot_status lot new now db).1
unfolding change_lot_status append_event
relabel-IsSound lot new now db h = elim (Option-cases (lookup lot db.statuses)) [
  | inl n ↦ rw n (record { on_hand = h.on_hand; allocated = h.allocated; covered = h.covered })
  | inr (s, f) ↦ rw f (record { on_hand = h.on_hand; allocated = h.allocated; covered = h.covered })
]

-- One call of the service, with what its reads returned.
pub data Call : Type 0 where
  post : List LotTransaction → LotStatus → LotTransaction → Call
  reserve : Lot → ℕ → ℤ → Call
  relabel : ℕ → LotStatus → Text → Call

unfoldable pub step : Call → Db → Db
step (post first held tx) db = (post_lot_transaction first held tx db).1
step (reserve lot location quantity) db = (reserve_lot lot location quantity db).1
step (relabel lot new now) db = (change_lot_status lot new now db).1

unfoldable pub run_calls : List Call → Db → Db
run_calls [] db = db
run_calls (c ∷ cs) db = run_calls cs (step c db)

step-IsSound : (c : Call) (db : Db) → IsSound db → IsSound (step c db)
unfolding step
step-IsSound (post first held tx) db h = post-IsSound first held tx db h
step-IsSound (reserve lot location quantity) db h = reserve-IsSound lot location quantity db h
step-IsSound (relabel lot new now) db h = relabel-IsSound lot new now db h

-- Any sequence of calls, of any sessions and with any outcome of their reads, keeps every lot
-- balance equal to the sum of the logged transactions, every allocation equal to the sum of the
-- reservations, and every allocation between zero and the stock.
pub run_calls-IsSound : (cs : List Call) (db : Db) → IsSound db → IsSound (run_calls cs db)
unfolding run_calls
run_calls-IsSound [] db h = h
run_calls-IsSound (c ∷ cs) db h = run_calls-IsSound cs (step c db) (step-IsSound c db h)

-- A call whose first read missed the key, while another session has committed it, raises and
-- changes nothing: the row of the other session is never returned.
pub post_lot_transaction-race :
    (first : List LotTransaction) (held : LotStatus) (tx old : LotTransaction) (db : Db)
    → find_key tx.idempotency_key first ≡ none
    → find_key tx.idempotency_key db.transactions ≡ some old
    → (e : Error) × (post_lot_transaction first held tx db ≡ (err e, db))
post_lot_transaction-race first held tx old db unseen taken =
    by_result (post_lot_transaction first held tx db) refl
      (post_lot_transaction-Posts first held tx db)
  where
    by_kind : (t : LotTransaction) (db' : Db) → ¬ Posted first tx held db t db'
    by_kind t db' (replayed seen m same) = ground (arith, seen, unseen)
    by_kind t db' (posted is_tx q permitted new log kept on_hand allocated covered) =
        ground (arith, new, taken)

    by_result :
        (p : Result Error LotTransaction × Db)
        → post_lot_transaction first held tx db ≡ p
        → Posts first tx held db p
        → (e : Error) × (post_lot_transaction first held tx db ≡ (err e, db))
    by_result (ok t, db') e done = elim (by_kind t db' done) [ ]
    by_result (err x, db') e same = (x, e ∙ ap (λ (d : Db). (err x, d)) same)
