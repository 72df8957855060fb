-- ===== src/Traceability/Lots/Tests.antt =====
-- Runs of the lot services, and the theorems at concrete lots.
use mrp_django.Inventory.Model.{type_eq}
use mrp_django.Prelude.{
  List, Option, Text, [], codes, err, insert, int_laws, lookup, nat_eq, none, option_eq, pair_eq,
  pos, refl, some, text_eq, ℕ, ℤ, ◌+ℤ◌, ◌∷◌, ◌≡◌,
}
use mrp_django.Traceability.Lots.Posting.{Posts, post_lot_transaction-Posts}
use mrp_django.Traceability.Lots.Service.{
  Db, Error, Lot, LotTransaction, LotTransactionType, append_event, arrive, available, blocked,
  create_row, ensure_and_move, ensure_row, find_key, move_lot, post_body, post_lot_transaction,
  post_new, put_in, receipt, record_move, replay_or_post, row_at, save_row, transfer,
}
use mrp_django.Traceability.Lots.Sound.{
  Call, IsSound, net, post, post_lot_transaction-race, promised, relabel, reserve, run_calls,
  run_calls-IsSound,
}

abbrev drum : Lot
drum = record { pk = 5; status = available }

abbrev start : Db
start = record {
  statuses = (5, available) ∷ [];
  balances = [];
  transactions = [];
  reservations = [];
  events = [];
}

abbrev move : LotTransactionType → Option ℕ → Option ℕ → ℤ → Text → LotTransaction
move ty f t q k = record {
  transaction_type = ty;
  lot = 5;
  from_location = f;
  to_location = t;
  quantity = q;
  idempotency_key = k;
}

abbrev arrival : LotTransaction
arrival = move receipt none (some 1) (pos 80000) (codes "r-1")

abbrev shift : LotTransaction
shift = move transfer (some 1) (some 2) (pos 30000) (codes "t-1")

abbrev stocked : Db
stocked = (post_lot_transaction [] available arrival start).1

stocked-rows : stocked.balances ≡ ((5, 1), record { on_hand = pos 80000; allocated = pos 0 }) ∷ []
unfolding post_lot_transaction post_body replay_or_post post_new ensure_and_move ensure_row move_lot
    arrive put_in row_at save_row record_move create_row append_event find_key lookup insert ◌+ℤ◌
stocked-rows = refl

post_lot_transaction-Posts_example :
    Posts [] shift available stocked (post_lot_transaction [] available shift stocked)
post_lot_transaction-Posts_example = post_lot_transaction-Posts [] available shift stocked

start-IsSound : IsSound start
unfolding lookup net promised
start-IsSound = record {
  on_hand = λ i l. refl;
  allocated = λ i l. refl;
  covered = λ i l. (omega int_laws, omega int_laws);
}

abbrev calls : List Call
calls =
    post [] available arrival
    ∷ reserve drum 1 (pos 50000)
    ∷ post (arrival ∷ []) available shift
    ∷ relabel 5 blocked (codes "t0")
    ∷ []

run_calls-IsSound_example : IsSound (run_calls calls start)
run_calls-IsSound_example = run_calls-IsSound calls start start-IsSound

abbrev taken : Db
taken = record start { transactions = arrival ∷ [] }

post_lot_transaction-race_example :
    (e : Error) × (post_lot_transaction [] available arrival taken ≡ (err e, taken))
unfolding find_key
post_lot_transaction-race_example =
    post_lot_transaction-race [] available arrival arrival taken refl refl
