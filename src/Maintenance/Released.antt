-- ===== src/Maintenance/Released.antt =====
-- The issue of a part keeps what is reserved backed by stock.
use mathlib.Core.Option.{some-injective}
use mathlib.Core.Path.{subst}
use mrp_django.Inventory.Balances.{allocated_at, allocated_of}
use mrp_django.Inventory.Model.{Balance, Db, type_eq}
use mrp_django.Maintenance.Backing.{
  AllRest, Backed, allocate-allocated_at, allocate-on_hand_at, at_place, found_there, held, open_at,
}
use mrp_django.Maintenance.Issuing.{consume, free_row}
use mrp_django.Maintenance.Parts.{
  Reservation, Stores, allocate, is_reservation_open, max_zero, rest_of,
}
use mrp_django.Prelude.{
  ==_iff, Bool-cases, List, [], ap, arith, get_elem?, if◌then◌else◌, inl, inr, int_laws, lookup,
  nat_eq, neg_part, option_eq, pair_eq, pos, pos_part, refl, set, some, suc, take, text_eq, true,
  zero, ℕ, ℤ, ◌&&◌, ◌+ℤ◌, ◌-ℤ◌, ◌==◌, ◌∙◌, ◌∷◌, ◌≡◌, ◌≤ℤ◌,
}

pub get_elem?-set :
    {A : Type 0} (xs : List A) (i j : ℕ) (v : A) {w : A}
    → get_elem? xs i ≡ some w
    → get_elem? (set xs i v) j ≡ (if i == j then some v else get_elem? xs j)
get_elem?-set [] i j v e = cc
get_elem?-set (x ∷ xs) zero zero v e = refl
get_elem?-set (x ∷ xs) zero (suc j) v e = ground arith
get_elem?-set (x ∷ xs) (suc i) zero v e = ground arith
get_elem?-set (x ∷ xs) (suc i) (suc j) v e = get_elem?-set xs i j v e ∙ ground arith

AllRest-get :
    (rs : List Reservation) (j : ℕ) {r : Reservation}
    → AllRest rs
    → get_elem? rs j ≡ some r
    → pos 0 ≤ℤ rest_of r
AllRest-get [] j h e = cc
AllRest-get (q ∷ rs) zero {r} h e = subst (λ x. pos 0 ≤ℤ rest_of x) (some-injective q r e) h.0
AllRest-get (q ∷ rs) (suc j) h e = AllRest-get rs j h.1 e

AllRest-set :
    (rs : List Reservation) (j : ℕ) (r : Reservation)
    → AllRest rs
    → pos 0 ≤ℤ rest_of r
    → AllRest (set rs j r)
AllRest-set [] j r h n = h
AllRest-set (q ∷ rs) zero r h n = (n, h.1)
AllRest-set (q ∷ rs) (suc j) r h n = (h.0, AllRest-set rs j r h.1 n)

held_nonneg : (i m : ℕ) (r : Reservation) → pos 0 ≤ℤ rest_of r → pos 0 ≤ℤ held i m r
unfolding held
held_nonneg i m r h = ground (arith, h)

open_at_nonneg : (i m : ℕ) (rs : List Reservation) → AllRest rs → pos 0 ≤ℤ open_at i m rs
unfolding open_at
open_at_nonneg i m [] h = omega arith
open_at_nonneg i m (r ∷ rs) h = omega (int_laws, held_nonneg i m r h.0, open_at_nonneg i m rs h.1)

held-open_at :
    (i m : ℕ) (rs : List Reservation) (j : ℕ) {r : Reservation}
    → AllRest rs
    → get_elem? rs j ≡ some r
    → held i m r ≤ℤ open_at i m rs
unfolding open_at
held-open_at i m [] j h e = cc
held-open_at i m (q ∷ rs) zero {r} h e =
    subst (λ x. held i m x ≤ℤ held i m q +ℤ open_at i m rs) (some-injective q r e)
      (omega (int_laws, open_at_nonneg i m rs h.1))
held-open_at i m (q ∷ rs) (suc j) {r} h e =
    omega (int_laws, held_nonneg i m q h.0, held-open_at i m rs j h.1 e)

open_at-set :
    (i m : ℕ) (rs : List Reservation) (j : ℕ) (r' : Reservation) {r : Reservation}
    → get_elem? rs j ≡ some r
    → open_at i m (set rs j r') +ℤ held i m r ≡ open_at i m rs +ℤ held i m r'
unfolding open_at
open_at-set i m [] j r' e = cc
open_at-set i m (q ∷ rs) zero r' {r} e =
    subst
      (λ x.
        held i m r' +ℤ open_at i m rs +ℤ held i m x ≡ held i m q +ℤ open_at i m rs +ℤ held i m r')
      (some-injective q r e) (omega int_laws)
open_at-set i m (q ∷ rs) (suc j) r' {r} e =
    let rest = open_at-set i m rs j r' e in omega (int_laws, ap pos_part rest, ap neg_part rest)

-- What is taken from an open reservation is what it holds less.
held-consume :
    (i m : ℕ) (take : ℤ) (r : Reservation)
    → is_reservation_open r.status ≡ true
    → take ≤ℤ rest_of r
    → held i m (consume take r) +ℤ at_place r.item r.location i m take ≡ held i m r
unfolding held consume rest_of
held-consume i m take r o h = grind (int_laws, o, h)

rest_of-consume : (take : ℤ) (r : Reservation) → rest_of (consume take r) ≡ rest_of r -ℤ take
unfolding rest_of consume
rest_of-consume take r = grind int_laws

allocate-less :
    (item l : ℕ) (b : Balance) (q : ℤ) (d : Db) (i m : ℕ)
    → lookup (item, l) d.balances ≡ some b
    → q ≤ℤ b.allocated
    → allocated_at (allocate item l b (max_zero (b.allocated -ℤ q)) d) i m +ℤ at_place item l i m q
      ≡ allocated_at d i m
allocate-less item l b q d i m e h =
    rw (allocate-allocated_at item l b (max_zero (b.allocated -ℤ q)) d i m)
      (elim (Bool-cases (item == i && l == m)) [
        | inl t ↦ rw t (rw (found_there item l i m b d e t) (grind (int_laws, h)))
        | inr n ↦ rw n (grind int_laws)
      ])

at_place_nonneg : (item l i m : ℕ) (q : ℤ) → pos 0 ≤ℤ q → pos 0 ≤ℤ at_place item l i m q
at_place_nonneg item l i m q h = ground (arith, h)

held_self :
    (r : Reservation) → is_reservation_open r.status ≡ true → held r.item r.location r ≡ rest_of r
unfolding held
held_self r o =
    ground (arith, o, (==_iff r.item r.item).1 refl, (==_iff r.location r.location).1 refl)

-- What is released is within what is allocated.
release-within :
    (id : ℕ) (r : Reservation) (b : Balance) (s : Stores)
    → Backed s
    → get_elem? s.reservations id ≡ some r
    → is_reservation_open r.status ≡ true
    → lookup (r.item, r.location) s.stock.balances ≡ some b
    → rest_of r ≤ℤ b.allocated
release-within id r b s h at o e =
    let row : open_at r.item r.location s.reservations ≤ℤ b.allocated =
      subst (λ x. open_at r.item r.location s.reservations ≤ℤ allocated_of x) e
        (h.backed r.item r.location) in
    let one = held-open_at r.item r.location s.reservations id h.rests at in
    let own = held_self r o in omega (arith, row, one, ap pos_part own, ap neg_part own)

pub free_row-Backed :
    (id : ℕ) (r : Reservation) (take : ℤ) (b : Balance) (s : Stores)
    → Backed s
    → get_elem? s.reservations id ≡ some r
    → is_reservation_open r.status ≡ true
    → pos 0 ≤ℤ take
    → take ≤ℤ rest_of r
    → lookup (r.item, r.location) s.stock.balances ≡ some b
    → Backed (free_row r.item r.location id r take b s)
unfolding free_row
free_row-Backed id r take b s h at o nn fits e =
    let within : take ≤ℤ b.allocated = omega (arith, fits, release-within id r b s h at o e) in
    let left = rest_of-consume take r in
    let less = λ (i m : ℕ). allocate-less r.item r.location b take s.stock i m e within in
    record {
      rests =
          AllRest-set s.reservations id (consume take r) h.rests
            (omega (int_laws, fits, ap pos_part left, ap neg_part left));
      backed = λ i m.
          let changed = open_at-set i m s.reservations id (consume take r) at in
          let taken = held-consume i m take r o fits in
          omega (
            int_laws,
            h.backed i m,
            ap pos_part changed,
            ap neg_part changed,
            ap pos_part taken,
            ap neg_part taken,
            ap pos_part (less i m),
            ap neg_part (less i m),
          );
      covered = λ i m.
          rw
            (allocate-on_hand_at r.item r.location b (max_zero (b.allocated -ℤ take)) s.stock i m e)
            (omega (
              int_laws,
              h.covered i m,
              at_place_nonneg r.item r.location i m take nn,
              ap pos_part (less i m),
              ap neg_part (less i m),
            ));
    }
