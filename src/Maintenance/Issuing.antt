-- ===== src/Maintenance/Issuing.antt =====
-- `issue_maintenance_part` of apps/maintenance/services.py, on the tables of Parts. The location
-- carries the plant of its warehouse.
use mrp_django.Common.{append_domain_event, show}
use mrp_django.Inventory.Model.{Balance, InventoryTransaction, Location, issue, type_eq}
use mrp_django.Inventory.Service.{add_id, post_inventory_transaction}
use mrp_django.Maintenance.Parts.{
  MaintenancePart, Reservation, Stores, StoresAct, allocate, is_reservation_open,
  location_of_other_plant, max_zero, on_stock, part_missing, part_quantity_not_positive,
  reservation_consumed, rest_of, stock_row_missing,
}
use mrp_django.Prelude.{
  Bool, List, Option, Text, [], atomic, codes, false, get, get_elem?, if◌then◌else◌, leb_ℤ, lookup,
  min_ℤ, modify, nat_eq, none, not, ok, option_eq, or_raise, pair_eq, pos, pure, raise_if, set,
  some, take, text_eq, ℕ, ℤ, ◌&&◌, ◌++◌, ◌+ℤ◌, ◌-ℤ◌, ◌==◌, ◌>>=◌, ◌>>◌, ◌∷◌,
}

-- `part.reservations.filter(...)`: the open reservations of the part at the location, by their ids.
unfoldable pub is_open_at : ℕ → Option Reservation → Bool
is_open_at l none = false
is_open_at l (some r) = r.location == l && is_reservation_open r.status

unfoldable pub own_open : ℕ → ℕ → List Reservation → List (ℕ × ℕ) → List ℕ
own_open k l rs [] = []
own_open k l rs ((p, r) ∷ links) =
    let others = own_open k l rs links in
    if p == k && is_open_at l (get_elem? rs r) then add_id r others else others

unfoldable pub consume : ℤ → Reservation → Reservation
consume take r =
    let consumed = r.consumed_quantity +ℤ take in
    record r {
      consumed_quantity = consumed;
      status = if leb_ℤ r.quantity consumed then reservation_consumed else r.status;
    }

unfoldable pub free_row : ℕ → ℕ → ℕ → Reservation → ℤ → Balance → Stores → Stores
free_row item l id r take b s = record s {
  stock = allocate item l b (max_zero (b.allocated -ℤ take)) s.stock;
  reservations = set s.reservations id (consume take r);
}

unfoldable pub free_one : ℕ → ℕ → ℕ → Reservation → ℤ → StoresAct (Unit {0})
free_one item l id r take = do
  s ← get
  b ← or_raise (lookup (item, l) s.stock.balances) stock_row_missing
  modify (free_row item l id r take b)

-- The turn of one link; `go` is the rest of the loop, given what is still to be released.
unfoldable pub release_one :
    ℕ → ℕ → ℕ → Option Reservation → ℤ → (ℤ → StoresAct (Unit {0})) → StoresAct (Unit {0})
release_one item l id none wanted go = go wanted
release_one item l id (some r) wanted go =
    let take = min_ℤ (rest_of r) wanted in
    if leb_ℤ take (pos 0) then go wanted else free_one item l id r take >> go (wanted -ℤ take)

unfoldable pub release : ℕ → ℕ → List ℕ → ℤ → StoresAct (Unit {0})
release item l [] wanted = pure tt
release item l (id ∷ ids) wanted = λ s.
    let go = release item l ids in
    let turn = release_one item l id (get_elem? s.reservations id) wanted go s in
    if leb_ℤ wanted (pos 0) then (ok tt, s) else turn

unfoldable pub issue_of : MaintenancePart → Location → ℤ → Text → InventoryTransaction
issue_of p location quantity key = record {
  transaction_type = issue;
  item = p.item;
  from_location = some location;
  to_location = none;
  quantity = quantity;
  reference_type = codes "MAINTENANCE_WORK_ORDER";
  reference_id = p.number;
  idempotency_key = some key;
}

abbrev pub is_id : Option ℕ → ℕ → Bool
is_id none id = false
is_id (some i) id = i == id

-- A movement that was posted for the part before is not counted again.
unfoldable pub count_issue : ℕ → MaintenancePart → Location → ℤ → ℕ → Stores → Stores
count_issue k p location quantity id s = if is_id p.issue_transaction id then s else record s {
  parts = set s.parts k (record p {
    issued_quantity = p.issued_quantity +ℤ quantity;
    source_location = some location.pk;
    issue_transaction = some id;
  });
}

unfoldable pub issued_event : MaintenancePart → ℕ → Stores → Stores
issued_event p id s = record s {
  events =
      (append_domain_event
        (record {
          idempotency_key = codes "maint-part-event:" ++ show id;
          event_type = codes "MAINTENANCE_PART_ISSUED";
          aggregate_type = codes "MaintenanceWorkOrder";
          aggregate_id = show p.work_order;
        })
        s.events).1;
}

unfoldable pub part_at : ℕ → StoresAct MaintenancePart
part_at k = do s ← get; or_raise (get_elem? s.parts k) part_missing

module _ (id_of : InventoryTransaction → ℕ) where
  unfoldable pub write_issue :
      ℕ → MaintenancePart → Location → ℤ → InventoryTransaction → StoresAct (Unit {0})
  write_issue k p location quantity row = do
    modify (count_issue k p location quantity (id_of row))
    modify (issued_event p (id_of row))

  unfoldable pub post_issue : ℕ → MaintenancePart → Location → ℤ → Text → StoresAct (Unit {0})
  post_issue k p location quantity key =
      on_stock (post_inventory_transaction (issue_of p location quantity key))
      >>= write_issue k p location quantity

  unfoldable pub release_own : ℕ → MaintenancePart → ℕ → ℤ → StoresAct (Unit {0})
  release_own k p l quantity s = release p.item l (own_open k l s.reservations s.links) quantity s

  unfoldable pub issue_found : ℕ → Location → ℤ → Text → MaintenancePart → StoresAct (Unit {0})
  issue_found k location quantity key p = do
    raise_if (leb_ℤ quantity (pos 0)) part_quantity_not_positive
    raise_if (not (location.plant == p.plant)) location_of_other_plant
    release_own k p location.pk quantity
    post_issue k p location quantity key

  unfoldable pub issue_maintenance_part : ℕ → Location → ℤ → Text → StoresAct (Unit {0})
  issue_maintenance_part k location quantity key =
      atomic (part_at k >>= issue_found k location quantity key)
