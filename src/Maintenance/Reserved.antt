-- ===== src/Maintenance/Reserved.antt =====
-- What a reservation of an order's parts leaves, by how it ended.
use mathlib.Core.Option.{some-injective}
use mathlib.Core.Path.{subst}
use mrp_django.Inventory.Model.{type_eq}
use mrp_django.Maintenance.Backing.{Backed}
use mrp_django.Maintenance.Fulfilment.{LinksInRange, reserve_places-Adds}
use mrp_django.Maintenance.Parts.{
  MaintenancePart, Stores, StoresError, already, max_zero, missing_of, part_rest, reserve_body,
  reserve_maintenance_parts, reserve_part, reserve_parts, reserve_places, reserved_event,
  stock_places,
}
use mrp_django.Maintenance.Reserving.{max_zero_nonneg, reserve_places-Fine}
use mrp_django.Prelude.{
  ==_iff, Bool-cases, List, Result, Text, [], ap, arith, err, false, get_elem?, inl, inr, int_laws,
  leb_ℤ, modify, nat_eq, neg_part, ok, option_eq, pair_eq, pos, pos_part, refl, roll_back, some,
  suc, text_eq, true, zero, ℕ, ℤ, ◌+ℤ◌, ◌+◌, ◌-ℤ◌, ◌<◌, ◌==◌, ◌∙◌, ◌∷◌, ◌≡◌, ◌≤ℤ◌,
}
use mrp_django.Walk.Offers.{left}

-- What reserving for one part has done.
abbrev PartDone : ℕ → MaintenancePart → Stores → Result StoresError (Unit {0}) × Stores → Type 0
PartDone k p s (err x, s') = Unit
PartDone k p s (ok u, s') =
    LinksInRange s'.links s'.reservations
    × Backed s'
    × (missing_of k p s' ≤ℤ pos 0)
    × ((j : ℕ)
        → k == j ≡ false
        → already j s'.reservations s'.links ≡ already j s.reservations s.links)
    × (s'.parts ≡ s.parts)

-- What was wanted has been added.
nothing_missing :
    (rest before after left : ℤ)
    → left +ℤ after ≡ max_zero (rest -ℤ before) +ℤ before
    → leb_ℤ left (pos 0) ≡ true
    → max_zero (rest -ℤ after) ≤ℤ pos 0
nothing_missing rest before after left e h =
    let p = ap pos_part e in let n = ap neg_part e in grind (int_laws, p, n, h)

reserve_part-PartDone :
    (k : ℕ) (p : MaintenancePart) (plant : ℕ) (s : Stores)
    → LinksInRange s.links s.reservations
    → Backed s
    → PartDone k p s (reserve_part k p plant s)
unfolding reserve_part missing_of
reserve_part-PartDone k p plant s links h =
    let wanted = missing_of k p s in
    let spots = stock_places p.item plant s.plants s.stock.balances in
    let r = reserve_places k p.item spots wanted s in
    let adds = reserve_places-Adds k p.item spots wanted s links in
    elim (Bool-cases (leb_ℤ wanted (pos 0))) [
      | inl t ↦ rw t (links, h, ground (arith, t), (λ j n. refl), refl)
      | inr n ↦ rw n (elim (Bool-cases (leb_ℤ r.0 (pos 0))) [
        | inl t ↦ rw t (
          adds.in_range,
          (reserve_places-Fine k p.item spots wanted s
              (max_zero_nonneg (part_rest p -ℤ already k s.reservations s.links), h)).1,
          nothing_missing (part_rest p) (already k s.reservations s.links)
              (already k r.1.reservations r.1.links) r.0 adds.sum t,
          adds.others,
          adds.parts,
        )
        | inr m ↦ rw m tt
      ])
    ]

-- What reserving for the parts `ps`, the first of which has the id `k`, has done.
abbrev PartsDone :
    ℕ → ℕ → List MaintenancePart → Stores → Result StoresError (Unit {0}) × Stores → Type 0
PartsDone wo k ps s (err x, s') = Unit
PartsDone wo k ps s (ok u, s') =
    LinksInRange s'.links s'.reservations
    × Backed s'
    × ((j : ℕ) → j < k → already j s'.reservations s'.links ≡ already j s.reservations s.links)
    × ((i : ℕ) (p : MaintenancePart)
        → get_elem? ps i ≡ some p
        → p.work_order == wo ≡ true
        → missing_of (k + i) p s' ≤ℤ pos 0)
    × (s'.parts ≡ s.parts)

missing_of-same :
    (k : ℕ) (p : MaintenancePart) (s t : Stores)
    → already k t.reservations t.links ≡ already k s.reservations s.links
    → missing_of k p t ≡ missing_of k p s
unfolding missing_of
missing_of-same k p s t e = ap (λ a. max_zero (part_rest p -ℤ a)) e

-- The parts after the first one, when they have been done.
after_first :
    (wo k : ℕ) (p : MaintenancePart) (ps : List MaintenancePart) (s t : Stores)
    → (p.work_order == wo ≡ true → missing_of k p t ≤ℤ pos 0)
    → ((j : ℕ) → j < k → already j t.reservations t.links ≡ already j s.reservations s.links)
    → t.parts ≡ s.parts
    → (r : Result StoresError (Unit {0}) × Stores) → PartsDone wo (suc k) ps t r
    → PartsDone wo k (p ∷ ps) s r
after_first wo k p ps s t here low same_parts (err x, d) q = tt
after_first wo k p ps s t here low same_parts (ok u, d) (links, backed, kept, each, rows) =
    (links, backed, (λ j h. kept j (omega (arith, h)) ∙ low j h), all, rows ∙ same_parts)
  where
    all :
        (i : ℕ) (q : MaintenancePart)
        → get_elem? (p ∷ ps) i ≡ some q
        → q.work_order == wo ≡ true
        → missing_of (k + i) q d ≤ℤ pos 0
    all zero q e w =
        let same : p ≡ q = some-injective p q e in
        let first =
          subst (λ x. x.work_order == wo ≡ true → missing_of k x t ≤ℤ pos 0) same here w in
        let place : k + 0 ≡ k = omega arith in
        rw (place, missing_of-same k q t d (kept k (omega arith))) first
    all (suc i) q e w = let place : k + suc i ≡ suc k + i = omega arith in rw place (each i q e w)

reserve_parts-PartsDone :
    (wo plant k : ℕ) (ps : List MaintenancePart) (s : Stores)
    → LinksInRange s.links s.reservations
    → Backed s
    → PartsDone wo k ps s (reserve_parts wo plant k ps s)
unfolding reserve_parts
reserve_parts-PartsDone wo plant k [] s links h = (links, h, (λ j l. refl), (λ i p e w. cc e), refl)
reserve_parts-PartsDone wo plant k (p ∷ ps) s links h = elim (Bool-cases (p.work_order == wo)) [
  | inl t ↦ rw t (
      with_part (reserve_parts-PartsDone wo plant (suc k) ps) (reserve_part k p plant s)
        (reserve_part-PartDone k p plant s links h))
  | inr n ↦ rw n (
      after_first wo k p ps s s (λ w. cc (n, w)) (λ j l. refl) refl
        (reserve_parts wo plant (suc k) ps s)
        (reserve_parts-PartsDone wo plant (suc k) ps s links h))
]
  where
    with_part :
        ((t : Stores)
          → LinksInRange t.links t.reservations
          → Backed t
          → PartsDone wo (suc k) ps t (reserve_parts wo plant (suc k) ps t))
        → (r : Result StoresError (Unit {0}) × Stores) → PartDone k p s r
        → let after : Result StoresError (Unit {0}) × Stores = elim r.0 [
          | ok u ↦ reserve_parts wo plant (suc k) ps r.1
          | err x ↦ (err x, r.1)
        ] in
          PartsDone wo k (p ∷ ps) s after
    with_part further (err x, t) q = tt
    with_part further (ok u, t) (links', backed, none_missing, others, rows) =
        after_first wo k p ps s t (λ w. none_missing)
          (λ j l. others j (ground (arith, l, ==_iff k j))) rows
          (reserve_parts wo plant (suc k) ps t) (further t links' backed)

-- A refused reservation changes nothing; an accepted one keeps what is reserved backed, and leaves
-- nothing missing for a part of the order.
abbrev pub Reserves : ℕ → Stores → Result StoresError (Unit {0}) × Stores → Type 0
Reserves wo s (err x, s') = s' ≡ s
Reserves wo s (ok u, s') =
    Backed s'
    × ((k : ℕ) (p : MaintenancePart)
        → get_elem? s.parts k ≡ some p
        → p.work_order == wo ≡ true
        → missing_of k p s' ≤ℤ pos 0)
    × (s'.parts ≡ s.parts)

pub reserve_maintenance_parts-Reserves :
    (wo plant : ℕ) (stamp : Text) (s : Stores)
    → LinksInRange s.links s.reservations
    → Backed s
    → Reserves wo s (reserve_maintenance_parts wo plant stamp s)
unfolding reserve_maintenance_parts reserve_body reserved_event missing_of
reserve_maintenance_parts-Reserves wo plant stamp s links h =
    by_result (reserve_parts wo plant 0 s.parts s)
      (reserve_parts-PartsDone wo plant 0 s.parts s links h)
  where
    by_result :
        (r : Result StoresError (Unit {0}) × Stores)
        → PartsDone wo 0 s.parts s r
        → let after : Result StoresError (Unit {0}) × Stores = elim r.0 [
          | ok u ↦ modify (reserved_event wo stamp) r.1
          | err x ↦ (err x, r.1)
        ] in
          Reserves wo s (roll_back s after)
    by_result (err x, t) q = refl
    by_result (ok u, t) (in_range, backed, kept, each, rows) = (
      record { rests = backed.rests; backed = backed.backed; covered = backed.covered },
      (λ i p e w.
          let place : 0 + i ≡ i = omega arith in
          subst (λ j. missing_of j p t ≤ℤ pos 0) place (each i p e w)),
      rows,
    )
