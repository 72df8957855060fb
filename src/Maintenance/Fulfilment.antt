-- ===== src/Maintenance/Fulfilment.antt =====
-- A successful reservation leaves nothing to be reserved for the parts of the order.
use mrp_django.Inventory.Model.{Balance, available, type_eq}
use mrp_django.Maintenance.Cycle.{get_elem?-snoc}
use mrp_django.Maintenance.Parts.{
  Reservation, Stores, already, open_rest, reserve_at, reserve_from, reserve_places, rest_of,
}
use mrp_django.Prelude.{
  ==_iff, Bool-cases, List, Option, [], arith, false, get_elem?, if◌then◌else◌, inl, inr, int_laws,
  leb_ℤ, length, length-append, lookup, min_ℤ, nat_eq, none, option_eq, pair_eq, pos, refl, some,
  suc, text_eq, true, zero, ℕ, ℤ, ◌++◌, ◌+ℤ◌, ◌-ℤ◌, ◌<◌, ◌==◌, ◌∙◌, ◌∷◌, ◌≡◌,
}

-- Every link is to a row of the reservations.
abbrev pub LinksInRange : List (ℕ × ℕ) → List Reservation → Type 0
LinksInRange [] rs = Unit
LinksInRange ((p, r) ∷ links) rs = (r < length rs) × LinksInRange links rs

get_elem?-before :
    (rs : List Reservation) (i : ℕ) (r : Reservation)
    → i < length rs
    → get_elem? (rs ++ r ∷ []) i ≡ get_elem? rs i
get_elem?-before [] i r h = absurd (omega arith)
get_elem?-before (q ∷ rs) zero r h = refl
get_elem?-before (q ∷ rs) (suc i) r h = get_elem?-before rs i r (omega (arith, h))

LinksInRange-snoc :
    (links : List (ℕ × ℕ)) (part : ℕ) (rs : List Reservation) (r : Reservation)
    → LinksInRange links rs
    → LinksInRange (links ++ (part, length rs) ∷ []) (rs ++ r ∷ [])
LinksInRange-snoc [] part rs r h = (omega (arith, length-append rs (r ∷ [])), tt)
LinksInRange-snoc ((p, i) ∷ links) part rs r h =
    (omega (arith, h.0, length-append rs (r ∷ [])), LinksInRange-snoc links part rs r h.1)

-- What a new reservation of a part adds to what the part has.
already-snoc :
    (k part : ℕ) (rs : List Reservation) (r : Reservation) (links : List (ℕ × ℕ))
    → LinksInRange links rs
    → already k (rs ++ r ∷ []) (links ++ (part, length rs) ∷ [])
      ≡ already k rs links +ℤ (if part == k then open_rest (some r) else pos 0)
unfolding already
already-snoc k part rs r [] h = rw (get_elem?-snoc rs r) (elim (Bool-cases (part == k)) [
  | inl t ↦ rw t (grind int_laws)
  | inr n ↦ rw n (grind int_laws)
])
already-snoc k part rs r ((p, i) ∷ links) h =
    let rest = already-snoc k part rs r links h.1 in
    rw (get_elem?-before rs i r h.0, rest)
      (elim (Bool-cases (p == k)) [ inl t ↦ rw t (grind int_laws) | inr n ↦ rw n (grind int_laws) ])

-- `r` is a run of the loop over the rows for a part: what is still missing and what the part has add
-- up as before, and nothing is changed for another part.
pub record Adds (part : ℕ) (remaining : ℤ) (s : Stores) (r : ℤ × Stores) : Type 0 where
  pub in_range : LinksInRange r.1.links r.1.reservations
  pub parts : r.1.parts ≡ s.parts
  pub sum :
      r.0 +ℤ already part r.1.reservations r.1.links
      ≡ remaining +ℤ already part s.reservations s.links
  pub others :
      (k : ℕ)
      → part == k ≡ false
      → already k r.1.reservations r.1.links ≡ already k s.reservations s.links

reserve_at-Adds :
    (part item l : ℕ) (b : Balance) (q remaining : ℤ) (s : Stores)
    → LinksInRange s.links s.reservations
    → Adds part remaining s (remaining -ℤ q, reserve_at part item l b q s)
unfolding reserve_at rest_of
reserve_at-Adds part item l b q remaining s h =
    let self : part == part ≡ true = (==_iff part part).1 refl in
    record {
      in_range = LinksInRange-snoc s.links part s.reservations _ h;
      parts = refl;
      sum = rw (already-snoc part part s.reservations _ s.links h) (rw self (grind int_laws));
      others = λ k n. already-snoc k part s.reservations _ s.links h ∙ rw n (grind int_laws);
    }

Adds-none :
    (part : ℕ) (remaining : ℤ) (s : Stores)
    → LinksInRange s.links s.reservations
    → Adds part remaining s (remaining, s)
Adds-none part remaining s h = record {
  in_range = h;
  parts = refl;
  sum = refl;
  others = λ k n. refl;
}

Adds-then :
    (part : ℕ) (remaining : ℤ) (s : Stores) (r t : ℤ × Stores)
    → Adds part remaining s r
    → Adds part r.0 r.1 t
    → Adds part remaining s t
Adds-then part remaining s r t a b = record {
  in_range = b.in_range;
  parts = b.parts ∙ a.parts;
  sum = b.sum ∙ a.sum;
  others = λ k n. b.others k n ∙ a.others k n;
}

reserve_from-Adds :
    (part item l : ℕ) (o : Option Balance) (remaining : ℤ) (s : Stores)
    → LinksInRange s.links s.reservations
    → Adds part remaining s (reserve_from part item l o remaining s)
reserve_from-Adds part item l none remaining s h = Adds-none part remaining s h
reserve_from-Adds part item l (some b) remaining s h =
    elim (Bool-cases (leb_ℤ (available b) (pos 0))) [
      | inl t ↦ rw t (Adds-none part remaining s h)
      | inr n ↦ rw n (reserve_at-Adds part item l b (min_ℤ (available b) remaining) remaining s h)
    ]

pub reserve_places-Adds :
    (part item : ℕ) (ls : List ℕ) (remaining : ℤ) (s : Stores)
    → LinksInRange s.links s.reservations
    → Adds part remaining s (reserve_places part item ls remaining s)
unfolding reserve_places
reserve_places-Adds part item [] remaining s h = Adds-none part remaining s h
reserve_places-Adds part item (l ∷ ls) remaining s h =
    let here = reserve_from part item l (lookup (item, l) s.stock.balances) remaining s in
    let turn = reserve_from-Adds part item l (lookup (item, l) s.stock.balances) remaining s h in
    elim (Bool-cases (leb_ℤ here.0 (pos 0))) [
      | inl t ↦ rw t turn
      | inr n ↦ rw n (
          Adds-then part remaining s here (reserve_places part item ls here.0 here.1) turn
            (reserve_places-Adds part item ls here.0 here.1 turn.in_range))
    ]
