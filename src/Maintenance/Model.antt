-- ===== src/Maintenance/Model.antt =====
-- apps/maintenance/models.py: the tables that the services read and write. Meters are
-- DecimalField(18, 3), kept as whole numbers of 0.001; a time is a number and a date a number of
-- days. An order, a reading and a failure have their position in the table as their id. Users are
-- left out, and so are the texts of an order but the notes of its completion.
use Prim.Native.String.{String}
use mrp_django.Common.{show}
use mrp_django.Inventory.Model.{type_eq}
use mrp_django.Prelude.{
  Action, Bool, List, Option, Table, Text, codes, get, get_elem?, length, lookup, nat_eq, option_eq,
  or_raise, pair_eq, replicate, set, text_eq, ℕ, ℤ, ◌++◌, ◌-◌, ◌>>=◌,
}
use mrp_django.Shopfloor.Machines.{Floor, event_on}

pub data Strategy : Type 0 where
  calendar meter hybrid : Strategy

pub data OrderType : Type 0 where
  preventive corrective predictive inspection : OrderType

pub data Status : Type 0 where
  planned released in_progress waiting_parts completed cancelled : Status

pub record MaintenanceAsset : Type 0 where
  pub plant : ℕ
  pub machine : Option ℕ
  pub is_active : Bool

pub record MaintenancePlan : Type 0 where
  pub asset : ℕ
  pub strategy : Strategy
  pub interval_days : ℕ
  pub interval_meter : ℤ
  pub next_due_date : Option ℕ
  pub next_due_meter : Option ℤ
  pub is_active : Bool

-- `number` is the year and the sequence of `OM-%Y-{seq:05d}`.
pub record MaintenanceWorkOrder : Type 0 where
  pub plant : ℕ
  pub number : ℕ × ℕ
  pub asset : ℕ
  pub plan : Option ℕ
  pub order_type : OrderType
  pub status : Status
  pub started_at : Option ℕ
  pub completed_at : Option ℕ
  pub downtime_event : Option ℕ
  pub completion_notes : Text
  pub meter_at_completion : Option ℤ

pub record AssetMeterReading : Type 0 where
  pub asset : ℕ
  pub meter_value : ℤ

pub record FailureEvent : Type 0 where
  pub asset : ℕ
  pub work_order : Option ℕ
  pub downtime_event : Option ℕ
  pub symptom : Text
  pub resolved_at : Option ℕ
  pub corrective_action : Text

pub record Db : Type 0 where
  pub floor : Floor
  pub assets : Table ℕ MaintenanceAsset
  pub plans : Table ℕ MaintenancePlan
  pub orders : List MaintenanceWorkOrder
  pub readings : List AssetMeterReading
  pub failures : List FailureEvent

pub data Error : Type 0 where
  missing_row not_startable machine_already_stopped not_in_progress : Error
  symptom_missing number_taken integrity_error : Error

abbrev pub Act : Type 0 → Type 0
Act = Action Error Db

-- `{seq:05d}`
unfoldable pub five_digits : ℕ → Text
five_digits n = replicate (5 - length (show n)) b'0' ++ show n

unfoldable pub number_text : ℕ × ℕ → Text
number_text (year, seq) = codes "OM-" ++ show year ++ codes "-" ++ five_digits seq

unfoldable pub order_at : ℕ → Act MaintenanceWorkOrder
order_at pk = do db ← get; or_raise (get_elem? db.orders pk) missing_row

unfoldable pub asset_at : ℕ → Act MaintenanceAsset
asset_at pk = do db ← get; or_raise (lookup pk db.assets) missing_row

unfoldable pub save_order : ℕ → MaintenanceWorkOrder → Db → Db
save_order pk wo db = record db { orders = set db.orders pk wo }

unfoldable pub on_floor : (Floor → Floor) → Db → Db
on_floor g db = record db { floor = g db.floor }

-- `_event` with a key.
unfoldable pub add_event : Text → String → String → ℕ → Db → Db
add_event key event_type aggregate_type pk db =
    on_floor
      (event_on (record {
        idempotency_key = key;
        event_type = codes event_type;
        aggregate_type = codes aggregate_type;
        aggregate_id = show pk;
      }))
      db
