-- ===== src/Maintenance/Backing.antt =====
-- What is reserved for maintenance is allocated in stock, and what is allocated is there.
use mathlib.Core.Path.{subst}
use mrp_django.Inventory.Balances.{allocated_at, on_hand_at}
use mrp_django.Inventory.Effect.{AllCovered}
use mrp_django.Inventory.Model.{Balance, Db, available, type_eq}
use mrp_django.Maintenance.Parts.{
  Reservation, Stores, allocate, is_reservation_open, reserve_at, rest_of,
}
use mrp_django.Prelude.{
  ==_iff, Bool-cases, List, [], arith, if◌then◌else◌, inl, inr, int_laws, lookup, lookup-insert,
  nat_eq, option_eq, pair_eq, pos, refl, some, text_eq, true, ℕ, ℤ, ◌&&◌, ◌++◌, ◌+ℤ◌, ◌==◌, ◌∙◌,
  ◌∷◌, ◌≡◌, ◌≤ℤ◌,
}

-- What the reservation holds of an item at a location.
unfoldable pub held : ℕ → ℕ → Reservation → ℤ
held i l r =
    if r.item == i && r.location == l && is_reservation_open r.status then rest_of r else pos 0

unfoldable pub open_at : ℕ → ℕ → List Reservation → ℤ
open_at i l [] = pos 0
open_at i l (r ∷ rs) = held i l r +ℤ open_at i l rs

abbrev pub AllRest : List Reservation → Type 0
AllRest [] = Unit
AllRest (r ∷ rs) = (pos 0 ≤ℤ rest_of r) × AllRest rs

-- No reservation is consumed beyond its quantity, the open ones of an item at a location are within
-- what is allocated there, and that within what is on hand.
pub record Backed (s : Stores) : Type 0 where
  pub rests : AllRest s.reservations
  pub backed : (i l : ℕ) → open_at i l s.reservations ≤ℤ allocated_at s.stock i l
  pub covered : AllCovered s.stock

pub open_at-snoc :
    (i l : ℕ) (rs : List Reservation) (r : Reservation)
    → open_at i l (rs ++ r ∷ []) ≡ open_at i l rs +ℤ held i l r
unfolding open_at
open_at-snoc i l [] r = grind int_laws
open_at-snoc i l (q ∷ rs) r = grind (int_laws, open_at-snoc i l rs r)

pub AllRest-snoc :
    (rs : List Reservation) (r : Reservation)
    → AllRest rs
    → pos 0 ≤ℤ rest_of r
    → AllRest (rs ++ r ∷ [])
AllRest-snoc [] r h n = (n, tt)
AllRest-snoc (q ∷ rs) r h n = (h.0, AllRest-snoc rs r h.1 n)

pub allocate-allocated_at :
    (item l : ℕ) (b : Balance) (v : ℤ) (d : Db) (i m : ℕ)
    → allocated_at (allocate item l b v d) i m
      ≡ (if item == i && l == m then v else allocated_at d i m)
unfolding allocate
allocate-allocated_at item l b v d i m =
    ground (arith, lookup-insert (item, l) (i, m) (record b { allocated = v }) d.balances)

pub allocate-on_hand_at :
    (item l : ℕ) (b : Balance) (v : ℤ) (d : Db) (i m : ℕ)
    → lookup (item, l) d.balances ≡ some b
    → on_hand_at (allocate item l b v d) i m ≡ on_hand_at d i m
unfolding allocate
allocate-on_hand_at item l b v d i m e = ground (
  arith,
  lookup-insert (item, l) (i, m) (record b { allocated = v }) d.balances,
  ==_iff item i,
  ==_iff l m,
  e,
)

-- What is added at one place, seen at another.
abbrev pub at_place : ℕ → ℕ → ℕ → ℕ → ℤ → ℤ
at_place item l i m q = if item == i && l == m then q else pos 0

pub found_there :
    (item l i m : ℕ) (b : Balance) (d : Db)
    → lookup (item, l) d.balances ≡ some b
    → item == i && l == m ≡ true
    → lookup (i, m) d.balances ≡ some b
found_there item l i m b d e t =
    subst (λ (k : ℕ × ℕ). lookup k d.balances ≡ some b) ((==_iff (item, l) (i, m)).0 t) e

allocate-more :
    (item l : ℕ) (b : Balance) (q : ℤ) (d : Db) (i m : ℕ)
    → lookup (item, l) d.balances ≡ some b
    → allocated_at (allocate item l b (b.allocated +ℤ q) d) i m
      ≡ allocated_at d i m +ℤ at_place item l i m q
allocate-more item l b q d i m e =
    allocate-allocated_at item l b (b.allocated +ℤ q) d i m
    ∙ elim (Bool-cases (item == i && l == m)) [
      | inl t ↦ rw t (rw (found_there item l i m b d e t) refl)
      | inr n ↦ rw n (grind int_laws)
    ]

reserve_at-covered :
    (item l : ℕ) (b : Balance) (qty : ℤ) (d : Db)
    → lookup (item, l) d.balances ≡ some b
    → qty ≤ℤ available b
    → AllCovered d
    → AllCovered (allocate item l b (b.allocated +ℤ qty) d)
unfolding available
reserve_at-covered item l b qty d e fits h i m =
    rw
      (
        allocate-on_hand_at item l b (b.allocated +ℤ qty) d i m e,
        allocate-more item l b qty d i m e,
      )
      (elim (Bool-cases (item == i && l == m)) [
        | inl t ↦ rw t (grind (int_laws, found_there item l i m b d e t, fits))
        | inr n ↦ rw n (grind (int_laws, h i m))
      ])

pub reserve_at-Backed :
    (part item l : ℕ) (b : Balance) (qty : ℤ) (s : Stores)
    → lookup (item, l) s.stock.balances ≡ some b
    → pos 0 ≤ℤ qty
    → qty ≤ℤ available b
    → Backed s
    → Backed (reserve_at part item l b qty s)
unfolding reserve_at held rest_of
reserve_at-Backed part item l b qty s e nn fits h = record {
  rests = AllRest-snoc s.reservations _ h.rests (grind int_laws);
  backed = λ i m.
      rw (allocate-more item l b qty s.stock i m e, open_at-snoc i m s.reservations _)
        (elim (Bool-cases (item == i && l == m)) [
          | inl t ↦ rw t (grind (int_laws, h.backed i m))
          | inr n ↦ rw n (grind (int_laws, h.backed i m))
        ]);
  covered = reserve_at-covered item l b qty s.stock e fits h.covered;
}
