-- ===== src/Traceability/Serials/Tests.antt =====
-- The theorems on serials at a concrete pump and its motor.
use mrp_django.Prelude.{List, [], arith, codes, false, none, refl, some, ◌∷◌, ◌≡◌}
use mrp_django.Traceability.Serials.Genealogy.{Tree, serial_genealogy}
use mrp_django.Traceability.Serials.Lineage.{Depicts, serial_genealogy-Depicts}
use mrp_django.Traceability.Serials.Posting.{Posts, post_serial_transaction-Posts}
use mrp_django.Traceability.Serials.Service.{
  Db, SerialComponent, SerialTransaction, available, post_serial_transaction, ship,
}
use mrp_django.Traceability.Serials.Sound.{
  Call, IsSound, assemble, assemble-IsSound, has_self_link, join, keys_differ, places, post,
}

abbrev parts : Db
parts = record {
  serials =
      (1, record { status = available; current_location = some 4 })
      ∷ (2, record { status = available; current_location = some 4 })
      ∷ [];
  transactions = [];
  components = [];
  events = [];
}

abbrev shipment : SerialTransaction
shipment = record {
  serial = 1;
  transaction_type = ship;
  from_location = some 4;
  to_location = none;
  idempotency_key = codes "s-1";
}

post_serial_transaction-Posts_example :
    Posts [] shipment parts (post_serial_transaction [] shipment parts)
post_serial_transaction-Posts_example = post_serial_transaction-Posts [] shipment parts

abbrev calls : List Call
calls = join 1 2 9 ∷ join 2 2 10 ∷ post [] shipment ∷ []

parts-IsSound : IsSound parts
unfolding places has_self_link keys_differ
parts-IsSound = record { once = λ serial. omega arith; no_self = refl; keys = refl }

assemble-IsSound_example : IsSound (assemble calls parts)
assemble-IsSound_example = assemble-IsSound calls parts parts-IsSound

-- A pump 1 with a motor 2 whose bearing is, by a wrong link, the pump.
abbrev looped : List SerialComponent
looped =
    record { pk = 1; parent_serial = 1; component_serial = 2; is_removed = false }
    ∷ record { pk = 2; parent_serial = 2; component_serial = 1; is_removed = false }
    ∷ []

serial_genealogy-Depicts_example :
    (t : Tree) × (serial_genealogy looped 1 ≡ some t) × Depicts looped [] 1 t
serial_genealogy-Depicts_example = serial_genealogy-Depicts looped 1
