-- ===== src/Maintenance/Parts.antt =====
-- `reserve_maintenance_parts` and `issue_maintenance_part` of apps/maintenance/services.py, on the
-- stock tables of apps/inventory. Quantities are whole numbers of 0.0001. A part, a reservation and
-- a link have their position in the table as their id; `id_of` is the id that the database gave a
-- movement, `stamp` the text of the current time and `key` the text of `idempotency_key or f"..."`.
-- A reservation of maintenance asks for the item itself, so its requested item and quantities are
-- its own; the date and the demand that it names are left out.
use mrp_django.Common.{DomainEvent, append_domain_event, show}
use mrp_django.Inventory.Model.{Balance, Db, Error, available, type_eq}
use mrp_django.Inventory.Service.{add_id}
use mrp_django.Prelude.{
  Action, Bool, List, Option, Result, Table, Text, [], atomic, codes, err, false, get, get_elem?,
  if◌then◌else◌, insert, leb_ℤ, length, lookup, min_ℤ, modify, nat_eq, none, ok, option_eq, pair_eq,
  pos, pure, some, suc, text_eq, true, ℕ, ℤ, ◌&&◌, ◌++◌, ◌+ℤ◌, ◌-ℤ◌, ◌==◌, ◌>>=◌, ◌>>◌, ◌∷◌,
}
use mrp_django.Walk.Offers.{left}

pub data ReservationStatus : Type 0 where
  reservation_open reservation_consumed reservation_cancelled : ReservationStatus

pub record Reservation : Type 0 where
  pub item : ℕ
  pub location : ℕ
  pub quantity : ℤ
  pub consumed_quantity : ℤ
  pub status : ReservationStatus

-- `number` is the text of the order's number.
pub record MaintenancePart : Type 0 where
  pub work_order : ℕ
  pub number : Text
  pub plant : ℕ
  pub item : ℕ
  pub planned_quantity : ℤ
  pub issued_quantity : ℤ
  pub source_location : Option ℕ
  pub issue_transaction : Option ℕ

-- `plants` holds the plant of each location; a link is a `MaintenancePartReservation`.
pub record Stores : Type 0 where
  pub stock : Db
  pub plants : Table ℕ ℕ
  pub reservations : List Reservation
  pub parts : List MaintenancePart
  pub links : List (ℕ × ℕ)
  pub events : List DomainEvent

pub data StoresError : Type 0 where
  part_missing stock_row_missing stock_too_short : StoresError
  part_quantity_not_positive location_of_other_plant : StoresError
  in_inventory : Error → StoresError

abbrev pub StoresAct : Type 0 → Type 0
StoresAct = Action StoresError Stores

abbrev pub posted_in : {A : Type 0} → Stores → Result Error A × Db → Result StoresError A × Stores
posted_in s (ok a, d) = (ok a, record s { stock = d })
posted_in s (err e, d) = (err (in_inventory e), record s { stock = d })

-- A call of the service of inventory.
abbrev pub on_stock : {A : Type 0} → Action Error Db A → StoresAct A
on_stock m s = posted_in s (m s.stock)

abbrev pub is_reservation_open : ReservationStatus → Bool
is_reservation_open reservation_open = true
is_reservation_open _ = false

-- `remaining_quantity` of a reservation
unfoldable pub rest_of : Reservation → ℤ
rest_of r = r.quantity -ℤ r.consumed_quantity

abbrev pub max_zero : ℤ → ℤ
max_zero a = if leb_ℤ (pos 0) a then a else pos 0

-- `remaining_quantity` of a part
unfoldable pub part_rest : MaintenancePart → ℤ
part_rest p = max_zero (p.planned_quantity -ℤ p.issued_quantity)

abbrev pub open_rest : Option Reservation → ℤ
open_rest none = pos 0
open_rest (some r) = if is_reservation_open r.status then rest_of r else pos 0

-- What the open reservations of a part still hold.
unfoldable pub already : ℕ → List Reservation → List (ℕ × ℕ) → ℤ
already part rs [] = pos 0
already part rs ((p, r) ∷ links) =
    let others = already part rs links in
    if p == part then open_rest (get_elem? rs r) +ℤ others else others

-- The locations of the plant that have a row of the item, by their ids; each has one, so that its
-- row can be read when the loop comes to it.
unfoldable pub stock_places : ℕ → ℕ → Table ℕ ℕ → Table (ℕ × ℕ) Balance → List ℕ
stock_places item plant plants [] = []
stock_places item plant plants (((i, l), b) ∷ rows) =
    let others = stock_places item plant plants rows in
    if i == item && lookup l plants == some plant then add_id l others else others

unfoldable pub allocate : ℕ → ℕ → Balance → ℤ → Db → Db
allocate item l b v d = record d {
  balances = insert (item, l) (record b { allocated = v }) d.balances;
}

-- A reservation of `qty` at a location, for a part.
unfoldable pub reserve_at : ℕ → ℕ → ℕ → Balance → ℤ → Stores → Stores
reserve_at part item l b qty s = record s {
  stock = allocate item l b (b.allocated +ℤ qty) s.stock;
  reservations =
      s.reservations
      ++ record {
        item = item;
        location = l;
        quantity = qty;
        consumed_quantity = pos 0;
        status = reservation_open;
      }
        ∷ [];
  links = s.links ++ (part, length s.reservations) ∷ [];
}

abbrev pub reserve_from : ℕ → ℕ → ℕ → Option Balance → ℤ → Stores → ℤ × Stores
reserve_from part item l none remaining s = (remaining, s)
reserve_from part item l (some b) remaining s =
    if leb_ℤ (available b) (pos 0)
    then (remaining, s)
    else (let qty = min_ℤ (available b) remaining in
        (remaining -ℤ qty, reserve_at part item l b qty s))

-- The loop over the rows of stock: what is still missing after it, and the tables.
unfoldable pub reserve_places : ℕ → ℕ → List ℕ → ℤ → Stores → ℤ × Stores
reserve_places part item [] remaining s = (remaining, s)
reserve_places part item (l ∷ ls) remaining s =
    let (left, s') = reserve_from part item l (lookup (item, l) s.stock.balances) remaining s in
    let further = reserve_places part item ls left s' in
    if leb_ℤ left (pos 0) then (left, s') else further

unfoldable pub missing_of : ℕ → MaintenancePart → Stores → ℤ
missing_of k p s = max_zero (part_rest p -ℤ already k s.reservations s.links)

unfoldable pub reserve_part : ℕ → MaintenancePart → ℕ → StoresAct (Unit {0})
reserve_part k p plant s =
    let wanted = missing_of k p s in
    let (left, s') =
      reserve_places k p.item (stock_places p.item plant s.plants s.stock.balances) wanted s in
    if leb_ℤ wanted (pos 0)
    then (ok tt, s)
    else if leb_ℤ left (pos 0)
    then (ok tt, s')
    else (err stock_too_short, s')

-- The loop over the parts of the order, `k` being the id of the first one that is left.
unfoldable pub reserve_parts : ℕ → ℕ → ℕ → List MaintenancePart → StoresAct (Unit {0})
reserve_parts wo plant k [] = pure tt
reserve_parts wo plant k (p ∷ ps) =
    let others = reserve_parts wo plant (suc k) ps in
    if p.work_order == wo then reserve_part k p plant >> others else others

unfoldable pub reserved_event : ℕ → Text → Stores → Stores
reserved_event wo stamp s = record s {
  events =
      (append_domain_event
        (record {
          idempotency_key =
              codes "MAINTENANCE_PARTS_RESERVED:MaintenanceWorkOrder:"
              ++ show wo
              ++ codes ":"
              ++ stamp;
          event_type = codes "MAINTENANCE_PARTS_RESERVED";
          aggregate_type = codes "MaintenanceWorkOrder";
          aggregate_id = show wo;
        })
        s.events).1;
}

unfoldable pub reserve_body : ℕ → ℕ → Text → StoresAct (Unit {0})
reserve_body wo plant stamp = do
  s ← get
  reserve_parts wo plant 0 s.parts
  modify (reserved_event wo stamp)

unfoldable pub reserve_maintenance_parts : ℕ → ℕ → Text → StoresAct (Unit {0})
reserve_maintenance_parts wo plant stamp = atomic (reserve_body wo plant stamp)
