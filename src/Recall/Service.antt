-- ===== src/Recall/Service.antt =====
-- `approve_recall`, `execute_recall` and `complete_recall` of apps/recall/services.py, statement by
-- statement. Users, times and the counts that are only shown are left out; of `blocked_at` only
-- whether it is set is kept.
use Prim.Native.String.{String}
use mrp_django.Common.{DomainEvent, append_domain_event, show}
use mrp_django.Inventory.Model.{type_eq}
use mrp_django.Prelude.{
  Action, Bool, List, Option, Table, [], atomic, codes, false, get, if◌then◌else◌, insert, lookup,
  modify, nat_eq, not, option_eq, or_raise, pair_eq, raise_if, some, text_eq, true, ℕ, ◌&&◌, ◌++◌,
  ◌==◌, ◌>>=◌, ◌>>◌, ◌||◌, ◌∷◌,
}
use mrp_django.Traceability.Lots.Service.{LotStatus, consumed, rejected}
use mrp_django.Traceability.Serials.Service.{SerialStatus, scrapped}

pub data Status : Type 0 where
  draft investigating approved executing completed cancelled : Status

pub data Disposition : Type 0 where
  pending blocked_unit returned reworked scrapped_unit cleared : Disposition

pub record AffectedUnit : Type 0 where
  pub recall_case : ℕ
  pub serial : Option ℕ
  pub lot : Option ℕ
  pub is_blocked : Bool
  pub disposition : Disposition

pub record Db : Type 0 where
  pub cases : Table ℕ Status
  pub affected_units : List AffectedUnit
  pub serials : Table ℕ SerialStatus
  pub lots : Table ℕ LotStatus
  pub events : List DomainEvent

pub data Error : Type 0 where
  missing_row not_investigating no_units not_approved not_executing units_open : Error

abbrev pub Act : Type 0 → Type 0
Act = Action Error Db

unfoldable pub case_at : ℕ → Act Status
case_at pk = do db ← get; or_raise (lookup pk db.cases) missing_row

unfoldable pub save_case : ℕ → Status → Db → Db
save_case pk s db = record db { cases = insert pk s db.cases }

-- `_event`, which is get_or_create by the key.
unfoldable pub add_event : ℕ → String → String → Db → Db
add_event pk event_type suffix db = record db {
  events =
      (append_domain_event
        (record {
          idempotency_key = codes "recall:" ++ show pk ++ codes ":" ++ codes suffix;
          event_type = codes event_type;
          aggregate_type = codes "RecallCase";
          aggregate_id = show pk;
        })
        db.events).1;
}

abbrev pub is_investigating : Status → Bool
is_investigating investigating = true
is_investigating _ = false

unfoldable pub has_units : ℕ → List AffectedUnit → Bool
has_units pk [] = false
has_units pk (u ∷ us) = u.recall_case == pk || has_units pk us

unfoldable pub approve_found : ℕ → Status → Act (Unit {0})
approve_found pk s = do
  raise_if (not (is_investigating s)) not_investigating
  db ← get
  raise_if (not (has_units pk db.affected_units)) no_units
  modify (λ d. add_event pk "recall.approved" "approved" (save_case pk approved d))

unfoldable pub approve_recall : ℕ → Act (Unit {0})
approve_recall pk = atomic (case_at pk >>= approve_found pk)

abbrev pub is_executable : Status → Bool
is_executable approved = true
is_executable executing = true
is_executable _ = false

-- `serial_ids` and `lot_ids`: whether a row is in them.
unfoldable pub affects_serial : ℕ → ℕ → List AffectedUnit → Bool
affects_serial pk k [] = false
affects_serial pk k (u ∷ us) = (u.recall_case == pk && u.serial == some k) || affects_serial pk k us

unfoldable pub affects_lot : ℕ → ℕ → List AffectedUnit → Bool
affects_lot pk k [] = false
affects_lot pk k (u ∷ us) = (u.recall_case == pk && u.lot == some k) || affects_lot pk k us

abbrev pub serial_after : Bool → SerialStatus → SerialStatus
serial_after true scrapped = scrapped
serial_after true _ = SerialStatus.blocked
serial_after false s = s

abbrev pub lot_after : Bool → LotStatus → LotStatus
lot_after true consumed = consumed
lot_after true rejected = rejected
lot_after true _ = LotStatus.blocked
lot_after false s = s

unfoldable pub block_serials : ℕ → List AffectedUnit → Table ℕ SerialStatus → Table ℕ SerialStatus
block_serials pk us [] = []
block_serials pk us ((k, s) ∷ rows) =
    (k, serial_after (affects_serial pk k us) s) ∷ block_serials pk us rows

unfoldable pub block_lots : ℕ → List AffectedUnit → Table ℕ LotStatus → Table ℕ LotStatus
block_lots pk us [] = []
block_lots pk us ((k, s) ∷ rows) = (k, lot_after (affects_lot pk k us) s) ∷ block_lots pk us rows

unfoldable pub block_unit : ℕ → AffectedUnit → AffectedUnit
block_unit pk u =
    if u.recall_case == pk && not u.is_blocked
    then record u { is_blocked = true; disposition = blocked_unit }
    else u

unfoldable pub block_units : ℕ → List AffectedUnit → List AffectedUnit
block_units pk [] = []
block_units pk (u ∷ us) = block_unit pk u ∷ block_units pk us

unfoldable pub execute_case : ℕ → Db → Db
execute_case pk db = add_event pk "recall.executed" "executed" (record db {
  cases = insert pk executing db.cases;
  serials = block_serials pk db.affected_units db.serials;
  lots = block_lots pk db.affected_units db.lots;
  affected_units = block_units pk db.affected_units;
})

unfoldable pub execute_found : ℕ → Status → Act (Unit {0})
execute_found pk s = do raise_if (not (is_executable s)) not_approved; modify (execute_case pk)

unfoldable pub execute_recall : ℕ → Act (Unit {0})
execute_recall pk = atomic (case_at pk >>= execute_found pk)

abbrev pub is_executing : Status → Bool
is_executing executing = true
is_executing _ = false

abbrev pub is_undecided : Disposition → Bool
is_undecided pending = true
is_undecided blocked_unit = true
is_undecided _ = false

-- `pending`, as a truth value.
unfoldable pub has_undecided : ℕ → List AffectedUnit → Bool
has_undecided pk [] = false
has_undecided pk (u ∷ us) =
    (u.recall_case == pk && is_undecided u.disposition) || has_undecided pk us

unfoldable pub complete_found : ℕ → Status → Act (Unit {0})
complete_found pk s = do
  raise_if (not (is_executing s)) not_executing
  db ← get
  raise_if (has_undecided pk db.affected_units) units_open
  modify (λ d. add_event pk "recall.completed" "completed" (save_case pk completed d))

unfoldable pub complete_recall : ℕ → Act (Unit {0})
complete_recall pk = atomic (case_at pk >>= complete_found pk)
