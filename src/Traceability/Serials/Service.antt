-- ===== src/Traceability/Serials/Service.antt =====
-- `post_serial_transaction` and `install_component`, statement by statement. Descriptive fields
-- (references, users, times, notes) are only stored, and left out. `first` is what the first query
-- of a call saw of the transactions.
use mrp_django.Common.{DomainEvent, append_domain_event, show}
use mrp_django.Inventory.Model.{type_eq}
use mrp_django.Prelude.{
  Action, Bool, List, Option, Table, Text, [], atomic, codes, err, false, get, if◌then◌else◌,
  insert, lookup, modify, nat_eq, none, not, ok, option_eq, or_raise, pair_eq, pure, raise_if, some,
  text_eq, true, ℕ, ◌&&◌, ◌++◌, ◌==◌, ◌>>=◌, ◌>>◌, ◌||◌, ◌∷◌,
}

pub data SerialStatus : Type 0 where
  created available reserved in_production installed shipped blocked scrapped : SerialStatus

pub record SerialNumber : Type 0 where
  pub status : SerialStatus
  pub current_location : Option ℕ

pub data SerialTransactionType : Type 0 where
  create move reserve issue install remove ship block scrap : SerialTransactionType

pub record SerialTransaction : Type 0 where
  pub serial : ℕ
  pub transaction_type : SerialTransactionType
  pub from_location : Option ℕ
  pub to_location : Option ℕ
  pub idempotency_key : Text

pub record SerialComponent : Type 0 where
  pub pk : ℕ
  pub parent_serial : ℕ
  pub component_serial : ℕ
  pub is_removed : Bool

pub record Db : Type 0 where
  pub serials : Table ℕ SerialNumber
  pub transactions : List SerialTransaction
  pub components : List SerialComponent
  pub events : List DomainEvent

pub data Error : Type 0 where
  missing_row target_required duplicate_key contains_itself already_installed : Error

abbrev pub Act : Type 0 → Type 0
Act = Action Error Db

unfoldable pub find_key : Text → List SerialTransaction → Option SerialTransaction
find_key k [] = none
find_key k (t ∷ ts) = if t.idempotency_key == k then some t else find_key k ts

-- `status_map`, where it has an entry.
abbrev pub mapped : SerialTransactionType → SerialStatus → SerialStatus
mapped create s = available
mapped reserve s = reserved
mapped issue s = in_production
mapped install s = installed
mapped ship s = shipped
mapped block s = blocked
mapped scrap s = scrapped
mapped move s = s
mapped remove s = s

abbrev pub is_move : SerialTransactionType → Bool
is_move move = true
is_move _ = false

abbrev pub is_missing : Option ℕ → Bool
is_missing none = true
is_missing (some _) = false

abbrev pub or_else : Option ℕ → Option ℕ → Option ℕ
or_else (some l) _ = some l
or_else none m = m

unfoldable pub updated : SerialTransaction → SerialNumber → SerialNumber
updated tx s = record {
  status = mapped tx.transaction_type s.status;
  current_location = or_else tx.to_location s.current_location;
}

unfoldable pub serial_at : ℕ → Act SerialNumber
serial_at pk = do db ← get; or_raise (lookup pk db.serials) missing_row

unfoldable pub save_serial : ℕ → SerialNumber → Db → Db
save_serial pk s db = record db { serials = insert pk s db.serials }

abbrev pub add_unless : Option SerialTransaction → SerialTransaction → Act (Unit {0})
add_unless (some _) tx db = (err duplicate_key, db)
add_unless none tx db = (ok tt, record db { transactions = tx ∷ db.transactions })

-- `SerialTransaction.objects.create`: a key that is taken raises.
unfoldable pub create_row : SerialTransaction → Act (Unit {0})
create_row tx db = add_unless (find_key tx.idempotency_key db.transactions) tx db

unfoldable pub append_event : DomainEvent → Db → Db
append_event e db = record db { events = (append_domain_event e db.events).1 }

unfoldable pub serial_event : SerialTransaction → DomainEvent
serial_event tx = record {
  idempotency_key = codes "serial-event:" ++ tx.idempotency_key;
  event_type = codes "traceability.serial_transaction_posted";
  aggregate_type = codes "SerialNumber";
  aggregate_id = show tx.serial;
}

unfoldable pub write_transaction : SerialTransaction → SerialNumber → Act SerialTransaction
write_transaction tx s = do
  modify (save_serial tx.serial (updated tx s))
  create_row tx
  modify (append_event (serial_event tx))
  pure tx

unfoldable pub post_found : SerialTransaction → SerialNumber → Act SerialTransaction
post_found tx s = do
  raise_if (is_move tx.transaction_type && is_missing tx.to_location) target_required
  write_transaction tx s

-- A key that is found is replayed, whatever the rest of the request says.
abbrev pub replay_or_post : SerialTransaction → Option SerialTransaction → Act SerialTransaction
replay_or_post tx (some old) = pure old
replay_or_post tx none = serial_at tx.serial >>= post_found tx

unfoldable pub post_serial_transaction :
    List SerialTransaction → SerialTransaction → Act SerialTransaction
post_serial_transaction first tx = atomic (replay_or_post tx (find_key tx.idempotency_key first))

-- `filter(component_serial=..., removed_at__isnull=True).exists()`
unfoldable pub is_installed : ℕ → List SerialComponent → Bool
is_installed component [] = false
is_installed component (c ∷ cs) =
    (c.component_serial == component && not c.is_removed) || is_installed component cs

unfoldable pub install_event : ℕ → ℕ → DomainEvent
install_event parent id = record {
  idempotency_key = codes "serial-install:" ++ show id;
  event_type = codes "traceability.serial_component_installed";
  aggregate_type = codes "SerialNumber";
  aggregate_id = show parent;
}

-- The link, the component's status and the event; `id` is the one that the table gives the link.
unfoldable pub link_component : ℕ → ℕ → ℕ → SerialNumber → Db → Db
link_component parent component id s db = append_event (install_event parent id) (
    save_serial component (record s { status = installed })
      (record db {
        components =
            record {
              pk = id;
              parent_serial = parent;
              component_serial = component;
              is_removed = false;
            }
            ∷ db.components;
      }))

unfoldable pub check_and_link : ℕ → ℕ → ℕ → SerialNumber → Act (Unit {0})
check_and_link parent component id s = do
  raise_if (parent == component) contains_itself
  db ← get
  raise_if (is_installed component db.components) already_installed
  modify (link_component parent component id s)

unfoldable pub install_body : ℕ → ℕ → ℕ → Act (Unit {0})
install_body parent component id = do
  _ ← serial_at parent
  s ← serial_at component
  check_and_link parent component id s

unfoldable pub install_component : ℕ → ℕ → ℕ → Act (Unit {0})
install_component parent component id = atomic (install_body parent component id)
