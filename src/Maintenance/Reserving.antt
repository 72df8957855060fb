-- ===== src/Maintenance/Reserving.antt =====
-- The loop over the rows of stock keeps what is reserved backed by stock.
use mrp_django.Inventory.Model.{Balance, available, type_eq}
use mrp_django.Maintenance.Backing.{Backed, reserve_at-Backed}
use mrp_django.Maintenance.Parts.{Stores, max_zero, reserve_from, reserve_places}
use mrp_django.Prelude.{
  Bool-cases, List, Option, [], arith, false, inl, inr, int_laws, leb_ℤ, lookup, min_ℤ, nat_eq,
  none, option_eq, pair_eq, pos, refl, some, text_eq, ℕ, ℤ, ◌-ℤ◌, ◌∷◌, ◌≡◌, ◌≤ℤ◌,
}

-- What a loop over rows returns: nothing is taken beyond what was wanted.
abbrev pub Fine : ℤ × Stores → Type 0
Fine r = (pos 0 ≤ℤ r.0) × Backed r.1

pub min_ℤ_fits :
    (a r : ℤ)
    → leb_ℤ a (pos 0) ≡ false
    → pos 0 ≤ℤ r
    → (pos 0 ≤ℤ min_ℤ a r) × (min_ℤ a r ≤ℤ a) × (pos 0 ≤ℤ r -ℤ min_ℤ a r)
min_ℤ_fits a r n h = (ground (arith, n, h), ground (arith, n, h), grind (int_laws, n, h))

pub max_zero_nonneg : (a : ℤ) → pos 0 ≤ℤ max_zero a
max_zero_nonneg a = ground arith

reserve_from-Fine :
    (part item l : ℕ) (o : Option Balance) (remaining : ℤ) (s : Stores)
    → lookup (item, l) s.stock.balances ≡ o
    → Fine (remaining, s)
    → Fine (reserve_from part item l o remaining s)
reserve_from-Fine part item l none remaining s e h = h
reserve_from-Fine part item l (some b) remaining s e h =
    elim (Bool-cases (leb_ℤ (available b) (pos 0))) [
      | inl t ↦ rw t h
      | inr n ↦ rw n (
        (min_ℤ_fits (available b) remaining n h.0).2,
        reserve_at-Backed part item l b (min_ℤ (available b) remaining) s e
            (min_ℤ_fits (available b) remaining n h.0).0
            (min_ℤ_fits (available b) remaining n h.0).1 h.1,
      )
    ]

pub reserve_places-Fine :
    (part item : ℕ) (ls : List ℕ) (remaining : ℤ) (s : Stores)
    → Fine (remaining, s)
    → Fine (reserve_places part item ls remaining s)
unfolding reserve_places
reserve_places-Fine part item [] remaining s h = h
reserve_places-Fine part item (l ∷ ls) remaining s h =
    let o = lookup (item, l) s.stock.balances in
    let here = reserve_from part item l o remaining s in
    let fine = reserve_from-Fine part item l o remaining s refl h in
    elim (Bool-cases (leb_ℤ here.0 (pos 0))) [
      | inl t ↦ rw t fine
      | inr n ↦ rw n (reserve_places-Fine part item ls here.0 here.1 fine)
    ]
