-- ===== src/Quality/Service.antt =====
-- apps/quality/services.py, statement by statement. Quantities are whole numbers of 0.0001, measured
-- values and limits of 0.000001. A non-conformance is identified by its unique number. Users, times
-- of day, notes, descriptions and the fields that are only copied to them are left out.
use Prim.Native.String.{String}
use mrp_django.Common.{DomainEvent, find_event, show}
use mrp_django.Inventory.Model.{type_eq}
use mrp_django.Prelude.{
  Bool, List, Option, Table, Text, [], atomic, codes, eqb_ℤ, err, false, get, if◌then◌else◌, insert,
  leb_ℤ, lookup, ltb_ℤ, modify, nat_eq, none, not, ok, option_eq, or_raise, pair_eq, pos, pure,
  raise_if, some, suc, text_eq, true, zero, ℕ, ℤ, ◌&&◌, ◌++◌, ◌+ℤ◌, ◌-◌, ◌==◌, ◌>>=◌, ◌>>◌, ◌||◌,
  ◌∷◌,
}
use mrp_django.Quality.Model.{
  Act, Characteristic, DataType, Db, Decision, Disposition, InspectionOrder, InspectionResult,
  NonConformance, Status, approved, bad_quantities, boolean, dispositioned, event_exists,
  exceeds_affected, in_progress, missing_row, ncr_open, not_accepting, not_startable, numeric,
  order_open, other_plan, partial, refused, results_missing, scrap, status_code, text, use_as_is,
  value_required,
}
use mrp_django.Traceability.Lots.Service.{LotStatus, available, inspection, quarantine}

-- `_event`, an INSERT: a second event of one type for one row within a microsecond has the same key,
-- which raises. `now` is the time stamp.
unfoldable pub event_of : String → String → Text → Text → DomainEvent
event_of event_type aggregate pk now = record {
  idempotency_key = codes event_type ++ codes ":" ++ pk ++ codes ":" ++ now;
  event_type = codes event_type;
  aggregate_type = codes aggregate;
  aggregate_id = pk;
}

abbrev pub add_event : Option DomainEvent → DomainEvent → Act (Unit {0})
add_event (some _) e db = (err event_exists, db)
add_event none e db = (ok tt, record db { events = e ∷ db.events })

unfoldable pub create_event : DomainEvent → Act (Unit {0})
create_event e db = add_event (find_event e.idempotency_key db.events) e db

unfoldable pub order_at : ℕ → Act InspectionOrder
order_at pk = do db ← get; or_raise (lookup pk db.orders) missing_row

unfoldable pub save_order : ℕ → InspectionOrder → Db → Db
save_order pk order db = record db { orders = insert pk order db.orders }

unfoldable pub save_lot : ℕ → LotStatus → Db → Db
save_lot lot s db = record db { lots = insert lot s db.lots }

-- `filter(pk=...).update(status=...)`, which does nothing where there is no such row.
abbrev pub update_found : Option LotStatus → ℕ → LotStatus → Db → Db
update_found none lot s db = db
update_found (some _) lot s db = save_lot lot s db

unfoldable pub update_lot : Option ℕ → LotStatus → Db → Db
update_lot none s db = db
update_lot (some lot) s db = update_found (lookup lot db.lots) lot s db

unfoldable pub begin_order : ℕ → InspectionOrder → Text → Act InspectionOrder
begin_order pk order now = do
  let started = record order { status = in_progress }
  modify (save_order pk started)
  modify (update_lot order.lot inspection)
  create_event (event_of "quality.inspection.started" "InspectionOrder" (show pk) now)
  pure started

unfoldable pub start_found : ℕ → Text → InspectionOrder → Act InspectionOrder
start_found pk now order = do
  raise_if (not (status_code order.status == 0)) not_startable
  begin_order pk order now

unfoldable pub start_inspection : ℕ → Text → Act InspectionOrder
start_inspection pk now = atomic (order_at pk >>= start_found pk now)

-- Whether `value` is on the wrong side of a limit that is set.
unfoldable pub below : ℤ → Option ℤ → Bool
below value none = false
below value (some limit) = ltb_ℤ value limit

unfoldable pub above : ℤ → Option ℤ → Bool
above value none = false
above value (some limit) = ltb_ℤ limit value

abbrev pub conforms : Characteristic → DataType → Option ℤ → Option Bool → Option Bool
conforms c numeric none b = none
conforms c numeric (some v) b = some (not (below v c.lower_limit) && not (above v c.upper_limit))
conforms c boolean v none = none
conforms c boolean v (some b) = some b
conforms c text v b = some true

abbrev pub accepts : Status → Bool
accepts order_open = true
accepts in_progress = true
accepts _ = false

unfoldable pub started_if_open : InspectionOrder → InspectionOrder
started_if_open order =
    if status_code order.status == 0 then record order { status = in_progress } else order

unfoldable pub save_result : ℕ → InspectionOrder → ℕ × (ℕ × ℕ) → InspectionResult → Db → Db
save_result pk order k r db =
    save_order pk (started_if_open order) (record db { results = insert k r db.results })

unfoldable pub measure :
    ℕ → Characteristic → ℕ → Option ℤ → Option Bool → InspectionOrder → Act InspectionResult
measure pk c sample v b order = do
  raise_if (not (accepts order.status)) not_accepting
  raise_if (not (c.plan == order.plan)) other_plan
  conforming ← or_raise (conforms c c.data_type v b) value_required
  let r : InspectionResult = record {
    numeric_value = v;
    boolean_value = b;
    is_conforming = conforming;
  }
  modify (save_result pk order (pk, (c.pk, sample)) r)
  pure r

unfoldable pub record_result :
    ℕ → Characteristic → ℕ → Option ℤ → Option Bool → Act InspectionResult
record_result pk c sample v b = atomic (order_at pk >>= measure pk c sample v b)

-- `results__order=order`
unfoldable pub has_result : ℕ → ℕ → Table (ℕ × (ℕ × ℕ)) InspectionResult → Bool
has_result pk c [] = false
has_result pk c ((k, r) ∷ rows) = (k.0 == pk && k.1.0 == c) || has_result pk c rows

unfoldable pub some_missing :
    ℕ → ℕ → List Characteristic → Table (ℕ × (ℕ × ℕ)) InspectionResult → Bool
some_missing pk plan [] rows = false
some_missing pk plan (c ∷ cs) rows =
    (c.plan == plan && c.is_mandatory && not (has_result pk c.pk rows))
    || some_missing pk plan cs rows

unfoldable pub order_verdict : ℤ → ℤ → Status
order_verdict good bad =
    if eqb_ℤ bad (pos 0) then approved else if eqb_ℤ good (pos 0) then refused else partial

unfoldable pub lot_verdict : ℤ → ℤ → LotStatus
lot_verdict good bad =
    if eqb_ℤ bad (pos 0)
    then available
    else if eqb_ℤ good (pos 0)
    then LotStatus.rejected
    else quarantine

-- The lot is read with a lock, so a missing row raises.
unfoldable pub set_lot : Option ℕ → LotStatus → Act (Unit {0})
set_lot none s = pure tt
set_lot (some lot) s = do
  db ← get
  _ ← or_raise (lookup lot db.lots) missing_row
  modify (save_lot lot s)

-- `{order.pk:06d}`
unfoldable pub pad : ℕ → Text → Text
pad zero t = t
pad (suc n) t = b'0' ∷ pad n t

unfoldable pub size : Text → ℕ
size [] = 0
size (c ∷ t) = suc (size t)

unfoldable pub ncr_number : ℕ → Text → Text
ncr_number pk today = codes "NC-" ++ today ++ codes "-" ++ pad (6 - size (show pk)) (show pk)

abbrev pub create_ncr : Option NonConformance → Text → NonConformance → Db → Db
create_ncr (some _) number n db = db
create_ncr none number n db = record db { ncrs = insert number n db.ncrs }

-- `get_or_create`, where something was rejected.
unfoldable pub open_ncr : ℕ → InspectionOrder → ℤ → Text → Db → Db
open_ncr pk order bad today db =
    let number = ncr_number pk today in
    let opened =
      create_ncr (lookup number db.ncrs) number
        (record {
          inspection_order = some pk;
          lot = order.lot;
          quantity_affected = bad;
          status = ncr_open;
        })
        db in
    if ltb_ℤ (pos 0) bad then opened else db

unfoldable pub completed : InspectionOrder → ℤ → ℤ → InspectionOrder
completed order good bad = record order {
  quantity_inspected = good +ℤ bad;
  quantity_approved = good;
  quantity_rejected = bad;
  status = order_verdict good bad;
}

unfoldable pub finish_order : ℕ → InspectionOrder → ℤ → ℤ → Text → Text → Act InspectionOrder
finish_order pk order good bad today now = do
  modify (open_ncr pk order bad today)
  create_event (event_of "quality.inspection.completed" "InspectionOrder" (show pk) now)
  pure (completed order good bad)

unfoldable pub close_order : ℕ → InspectionOrder → ℤ → ℤ → Text → Text → Act InspectionOrder
close_order pk order good bad today now = do
  modify (save_order pk (completed order good bad))
  set_lot order.lot (lot_verdict good bad)
  finish_order pk order good bad today now

unfoldable pub complete_found : ℕ → ℤ → ℤ → Text → Text → InspectionOrder → Act InspectionOrder
complete_found pk good bad today now order = do
  raise_if (ltb_ℤ good (pos 0) || ltb_ℤ bad (pos 0) || ltb_ℤ order.quantity_received (good +ℤ bad))
      bad_quantities
  db ← get
  raise_if (some_missing pk order.plan db.characteristics db.results) results_missing
  close_order pk order good bad today now

-- The number of the non-conformance has today's date; the key of the event has the time.
unfoldable pub complete_inspection : ℕ → ℤ → ℤ → Text → Text → Act InspectionOrder
complete_inspection pk good bad today now =
    atomic (order_at pk >>= complete_found pk good bad today now)

unfoldable pub ncr_at : Text → Act NonConformance
ncr_at number = do db ← get; or_raise (lookup number db.ncrs) missing_row

-- `sum(d.quantity for d in ncr.dispositions.all())`
unfoldable pub disposed : Text → List Disposition → ℤ
disposed number [] = pos 0
disposed number (d ∷ ds) =
    if d.nonconformance == number then d.quantity +ℤ disposed number ds else disposed number ds

unfoldable pub create_disposition : Disposition → Db → Db
create_disposition d db = record db { dispositions = d ∷ db.dispositions }

unfoldable pub close_ncr : Text → NonConformance → ℤ → Db → Db
close_ncr number ncr total db =
    if eqb_ℤ total ncr.quantity_affected
    then record db { ncrs = insert number (record ncr { status = dispositioned }) db.ncrs }
    else db

abbrev pub decided : Decision → Bool → LotStatus
decided use_as_is true = available
decided scrap true = LotStatus.rejected
decided _ _ = quarantine

unfoldable pub finish_disposition : NonConformance → Disposition → ℤ → Text → Act Disposition
finish_disposition ncr d total now = do
  set_lot ncr.lot (decided d.decision (eqb_ℤ total ncr.quantity_affected))
  create_event
      (event_of "quality.nonconformance.dispositioned" "NonConformance" d.nonconformance now)
  pure d

unfoldable pub dispose_found : Disposition → Text → NonConformance → Act Disposition
dispose_found d now ncr = do
  db ← get
  let total = disposed d.nonconformance db.dispositions +ℤ d.quantity
  raise_if (leb_ℤ d.quantity (pos 0) || ltb_ℤ ncr.quantity_affected total) exceeds_affected
  modify (create_disposition d)
  modify (close_ncr d.nonconformance ncr total)
  finish_disposition ncr d total now

unfoldable pub apply_disposition : Disposition → Text → Act Disposition
apply_disposition d now = atomic (ncr_at d.nonconformance >>= dispose_found d now)
