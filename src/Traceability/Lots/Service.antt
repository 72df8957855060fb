-- ===== src/Traceability/Lots/Service.antt =====
-- `post_lot_transaction`, `reserve_lot` and `change_lot_status`, statement by statement. Quantities
-- are whole numbers of 0.0001. Descriptive fields (supplier, dates, references, users, notes) are
-- only stored, and left out. `first` is what the first query of a call saw of the transactions.
use mrp_django.Common.{DomainEvent, append_domain_event, show}
use mrp_django.Inventory.Model.{type_eq}
use mrp_django.Prelude.{
  Action, Bool, List, Option, Table, Text, [], atomic, codes, eqb_ℤ, err, false, get, if◌then◌else◌,
  insert, leb_ℤ, lookup, ltb_ℤ, modify, nat_eq, none, not, ok, option_eq, or_raise, pair_eq, pos,
  pure, raise, raise_if, some, text_eq, true, ℕ, ℤ, ◌&&◌, ◌++◌, ◌+ℤ◌, ◌-ℤ◌, ◌==◌, ◌>>=◌, ◌>>◌, ◌∷◌,
}

pub data LotStatus : Type 0 where
  available quarantine inspection blocked rejected expired consumed : LotStatus

-- The row that the caller has at hand; `post_lot_transaction` does not read it again.
pub record Lot : Type 0 where
  pub pk : ℕ
  pub status : LotStatus

pub record LotBalance : Type 0 where
  pub on_hand : ℤ
  pub allocated : ℤ

-- `LotBalance.available`
unfoldable pub free : LotBalance → ℤ
free b = b.on_hand -ℤ b.allocated

pub data LotTransactionType : Type 0 where
  receipt issue transfer adjustment status split merge : LotTransactionType

abbrev pub lot_type_code : LotTransactionType → ℕ
lot_type_code receipt = 0
lot_type_code issue = 1
lot_type_code transfer = 2
lot_type_code adjustment = 3
lot_type_code status = 4
lot_type_code split = 5
lot_type_code merge = 6

pub record LotTransaction : Type 0 where
  pub transaction_type : LotTransactionType
  pub lot : ℕ
  pub from_location : Option ℕ
  pub to_location : Option ℕ
  pub quantity : ℤ
  pub idempotency_key : Text

pub record LotReservation : Type 0 where
  pub lot : ℕ
  pub location : ℕ
  pub quantity : ℤ

pub record Db : Type 0 where
  pub statuses : Table ℕ LotStatus
  pub balances : Table (ℕ × ℕ) LotBalance
  pub transactions : List LotTransaction
  pub reservations : List LotReservation
  pub events : List DomainEvent

pub data Error : Type 0 where
  quantity_not_positive key_reused lot_blocked source_required short_available : Error
  target_required transaction_broken not_available missing_row : Error

abbrev pub Act : Type 0 → Type 0
Act = Action Error Db

unfoldable pub find_key : Text → List LotTransaction → Option LotTransaction
find_key k [] = none
find_key k (t ∷ ts) = if t.idempotency_key == k then some t else find_key k ts

-- `expected != supplied`
unfoldable pub same_movement : LotTransaction → LotTransaction → Bool
same_movement old new =
    old.lot == new.lot
    && lot_type_code old.transaction_type == lot_type_code new.transaction_type
    && eqb_ℤ old.quantity new.quantity
    && old.from_location == new.from_location
    && old.to_location == new.to_location

unfoldable pub replay : LotTransaction → LotTransaction → Act LotTransaction
replay old new = do raise_if (not (same_movement old new)) key_reused; pure old

abbrev pub is_movable : LotStatus → Bool
is_movable available = true
is_movable quarantine = true
is_movable inspection = true
is_movable _ = false

abbrev pub leaves : LotTransactionType → Bool
leaves issue = true
leaves transfer = true
leaves _ = false

abbrev pub arrives : LotTransactionType → Bool
arrives receipt = true
arrives transfer = true
arrives _ = false

-- `get_or_create(lot=lot, location=location, ...)` for a location that is given.
abbrev pub create_missing : Option LotBalance → ℕ → ℕ → Db → Db
create_missing (some _) lot l db = db
create_missing none lot l db = record db {
  balances = insert (lot, l) (record { on_hand = pos 0; allocated = pos 0 }) db.balances;
}

unfoldable pub ensure_row : ℕ → Option ℕ → Db → Db
ensure_row lot none db = db
ensure_row lot (some l) db = create_missing (lookup (lot, l) db.balances) lot l db

-- `balances[location.id]`: one object for a location, also where it is both origin and target.
unfoldable pub row_at : ℕ → ℕ → Act LotBalance
row_at lot l = do db ← get; or_raise (lookup (lot, l) db.balances) missing_row

unfoldable pub save_row : ℕ → ℕ → LotBalance → Db → Db
save_row lot l b db = record db { balances = insert (lot, l) b db.balances }

unfoldable pub take_out : LotTransaction → Option ℕ → Act (Unit {0})
take_out tx none = raise source_required
take_out tx (some l) = do
  source ← row_at tx.lot l
  raise_if (ltb_ℤ (free source) tx.quantity) short_available
  modify (save_row tx.lot l (record source { on_hand = source.on_hand -ℤ tx.quantity }))

unfoldable pub put_in : LotTransaction → Option ℕ → Act (Unit {0})
put_in tx none = raise target_required
put_in tx (some l) = do
  target ← row_at tx.lot l
  modify (save_row tx.lot l (record target { on_hand = target.on_hand +ℤ tx.quantity }))

abbrev pub when : Bool → Act (Unit {0}) → Act (Unit {0})
when true m db = m db
when false m db = (ok tt, db)

unfoldable pub lot_event : LotTransaction → DomainEvent
lot_event tx = record {
  idempotency_key = codes "lot-event:" ++ tx.idempotency_key;
  event_type = codes "traceability.lot_transaction_posted";
  aggregate_type = codes "InventoryLot";
  aggregate_id = show tx.lot;
}

unfoldable pub append_event : DomainEvent → Db → Db
append_event e db = record db { events = (append_domain_event e db.events).1 }

-- `LotTransaction.objects.create`, outside a savepoint: a key that is taken breaks the transaction,
-- so the query of the `except` branch raises as well.
abbrev pub add_unless : Option LotTransaction → LotTransaction → Act (Unit {0})
add_unless (some _) tx db = (err transaction_broken, db)
add_unless none tx db = (ok tt, record db { transactions = tx ∷ db.transactions })

unfoldable pub create_row : LotTransaction → Act (Unit {0})
create_row tx db = add_unless (find_key tx.idempotency_key db.transactions) tx db

unfoldable pub record_move : LotTransaction → Act LotTransaction
record_move tx = do create_row tx; modify (append_event (lot_event tx)); pure tx

unfoldable pub arrive : LotTransaction → Act LotTransaction
arrive tx = do when (arrives tx.transaction_type) (put_in tx tx.to_location); record_move tx

-- The updates of the balances, the row and its event.
unfoldable pub move_lot : LotTransaction → Act LotTransaction
move_lot tx = do when (leaves tx.transaction_type) (take_out tx tx.from_location); arrive tx

unfoldable pub ensure_and_move : LotTransaction → Act LotTransaction
ensure_and_move tx = do
  modify (ensure_row tx.lot tx.from_location)
  modify (ensure_row tx.lot tx.to_location)
  move_lot tx

unfoldable pub post_new : LotStatus → LotTransaction → Act LotTransaction
post_new held tx = do
  raise_if (not (is_movable held) && leaves tx.transaction_type) lot_blocked
  ensure_and_move tx

unfoldable pub replay_or_post :
    LotStatus → LotTransaction → Option LotTransaction → Act LotTransaction
replay_or_post held tx none = post_new held tx
replay_or_post held tx (some old) = replay old tx

unfoldable pub post_body : List LotTransaction → LotStatus → LotTransaction → Act LotTransaction
post_body first held tx = do
  raise_if (leb_ℤ tx.quantity (pos 0)) quantity_not_positive
  replay_or_post held tx (find_key tx.idempotency_key first)

unfoldable pub post_lot_transaction :
    List LotTransaction → LotStatus → LotTransaction → Act LotTransaction
post_lot_transaction first held tx = atomic (post_body first held tx)

abbrev pub is_available : LotStatus → Bool
is_available available = true
is_available _ = false

unfoldable pub create_reservation : LotReservation → Act LotReservation
create_reservation r db = (ok r, record db { reservations = r ∷ db.reservations })

unfoldable pub reserve_body : Lot → ℕ → ℤ → Act LotReservation
reserve_body lot location quantity = do
  raise_if (leb_ℤ quantity (pos 0)) quantity_not_positive
  raise_if (not (is_available lot.status)) not_available
  balance ← row_at lot.pk location
  raise_if (ltb_ℤ (free balance) quantity) short_available
  modify (save_row lot.pk location (record balance { allocated = balance.allocated +ℤ quantity }))
  create_reservation (record { lot = lot.pk; location = location; quantity = quantity })

unfoldable pub reserve_lot : Lot → ℕ → ℤ → Act LotReservation
reserve_lot lot location quantity = atomic (reserve_body lot location quantity)

abbrev pub status_name : LotStatus → Text
status_name available = codes "AVAILABLE"
status_name quarantine = codes "QUARANTINE"
status_name inspection = codes "INSPECTION"
status_name blocked = codes "BLOCKED"
status_name rejected = codes "REJECTED"
status_name expired = codes "EXPIRED"
status_name consumed = codes "CONSUMED"

-- `now` is the time stamp in the key of the event.
unfoldable pub status_event : ℕ → LotStatus → LotStatus → Text → DomainEvent
status_event lot old new now = record {
  idempotency_key =
      codes "lot-status:"
      ++ show lot
      ++ codes ":"
      ++ status_name old
      ++ codes ":"
      ++ status_name new
      ++ codes ":"
      ++ now;
  event_type = codes "traceability.lot_status_changed";
  aggregate_type = codes "InventoryLot";
  aggregate_id = show lot;
}

unfoldable pub change_lot_status : ℕ → LotStatus → Text → Act LotStatus
change_lot_status lot new now = do
  db ← get
  previous ← or_raise (lookup lot db.statuses) missing_row
  modify (λ d. record d { statuses = insert lot new d.statuses })
  modify (append_event (status_event lot previous new now))
  pure new
