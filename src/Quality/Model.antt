-- ===== src/Quality/Model.antt =====
-- The tables of apps/quality/models.py. A non-conformance is identified by its unique number, also
-- in its events. Quantities are whole numbers of 0.0001, measured values and limits of 0.000001.
use mrp_django.Common.{DomainEvent}
use mrp_django.Prelude.{Action, Bool, List, Option, Table, Text, ℕ, ℤ}
use mrp_django.Traceability.Lots.Service.{LotStatus}

pub data Status : Type 0 where
  order_open in_progress approved partial refused cancelled : Status

pub data DataType : Type 0 where
  numeric boolean text : DataType

pub data NcrStatus : Type 0 where
  ncr_open under_review dispositioned closed : NcrStatus

pub data Decision : Type 0 where
  use_as_is rework return scrap sort : Decision

pub record Characteristic : Type 0 where
  pub pk : ℕ
  pub plan : ℕ
  pub data_type : DataType
  pub lower_limit : Option ℤ
  pub upper_limit : Option ℤ
  pub is_mandatory : Bool

pub record InspectionOrder : Type 0 where
  pub plan : ℕ
  pub lot : Option ℕ
  pub quantity_received : ℤ
  pub quantity_inspected : ℤ
  pub quantity_approved : ℤ
  pub quantity_rejected : ℤ
  pub status : Status

pub record InspectionResult : Type 0 where
  pub numeric_value : Option ℤ
  pub boolean_value : Option Bool
  pub is_conforming : Bool

pub record NonConformance : Type 0 where
  pub inspection_order : Option ℕ
  pub lot : Option ℕ
  pub quantity_affected : ℤ
  pub status : NcrStatus

pub record Disposition : Type 0 where
  pub nonconformance : Text
  pub decision : Decision
  pub quantity : ℤ

-- The results stand under order, characteristic and sample number.
pub record Db : Type 0 where
  pub characteristics : List Characteristic
  pub orders : Table ℕ InspectionOrder
  pub results : Table (ℕ × (ℕ × ℕ)) InspectionResult
  pub ncrs : Table Text NonConformance
  pub dispositions : List Disposition
  pub lots : Table ℕ LotStatus
  pub events : List DomainEvent

pub data Error : Type 0 where
  missing_row not_startable not_accepting other_plan value_required : Error
  bad_quantities results_missing exceeds_affected event_exists : Error

abbrev pub Act : Type 0 → Type 0
Act = Action Error Db

abbrev pub status_code : Status → ℕ
status_code order_open = 0
status_code in_progress = 1
status_code approved = 2
status_code partial = 3
status_code refused = 4
status_code cancelled = 5
