-- ===== src/Maintenance/Withdrawal.antt =====
-- The loop that releases the reservations of a part, and the issue as a whole.
use mathlib.Core.Path.{subst}
use mrp_django.Inventory.Model.{Balance, type_eq}
use mrp_django.Maintenance.Backing.{Backed}
use mrp_django.Maintenance.Issuing.{consume, free_one, free_row, release, release_one}
use mrp_django.Maintenance.Parts.{
  Reservation, Stores, StoresAct, is_reservation_open, rest_of, stock_row_missing,
}
use mrp_django.Maintenance.Released.{free_row-Backed, get_elem?-set}
use mrp_django.Prelude.{
  Bool-cases, List, Option, Option-cases, [], after_bind, arith, false, get_elem?, inl, inr,
  int_laws, leb_ℤ, lookup, min_ℤ, modify, nat_eq, none, option_eq, or_raise, pair_eq, pos, refl,
  set, some, sym, text_eq, true, ℕ, ℤ, ◌-ℤ◌, ◌==◌, ◌>>=◌, ◌∷◌, ◌≡◌, ◌≤ℤ◌,
}

-- A reservation, where there is one, is for the item at the location, and open while it holds
-- anything.
abbrev pub OwnAt : ℕ → ℕ → Option Reservation → Type 0
OwnAt item l none = Unit
OwnAt item l (some r) =
    (r.item ≡ item)
    × (r.location ≡ l)
    × (leb_ℤ (rest_of r) (pos 0) ≡ false → is_reservation_open r.status ≡ true)

abbrev pub AllOwn : ℕ → ℕ → List ℕ → List Reservation → Type 0
AllOwn item l [] rs = Unit
AllOwn item l (id ∷ ids) rs = OwnAt item l (get_elem? rs id) × AllOwn item l ids rs

consume-OwnAt :
    (item l : ℕ) (q : ℤ) (r : Reservation)
    → r.item ≡ item
    → r.location ≡ l
    → is_reservation_open r.status ≡ true
    → OwnAt item l (some (consume q r))
unfolding consume rest_of
consume-OwnAt item l q r a b o = (a, b, λ n. grind (int_laws, o, n))

set-AllOwn :
    (item l : ℕ) (ids : List ℕ) (rs : List Reservation) (id : ℕ) (r' : Reservation)
    {r : Reservation}
    → get_elem? rs id ≡ some r
    → OwnAt item l (some r')
    → AllOwn item l ids rs
    → AllOwn item l ids (set rs id r')
set-AllOwn item l [] rs id r' at new h = tt
set-AllOwn item l (j ∷ ids) rs id r' at new h = (
  rw (get_elem?-set rs id j r' at)
      (elim (Bool-cases (id == j)) [ inl t ↦ rw t new | inr n ↦ rw n h.0 ]),
  set-AllOwn item l ids rs id r' at new h.1,
)

min_ℤ_positive :
    (a w : ℤ)
    → leb_ℤ (min_ℤ a w) (pos 0) ≡ false
    → (leb_ℤ a (pos 0) ≡ false) × (pos 0 ≤ℤ min_ℤ a w) × (min_ℤ a w ≤ℤ a)
min_ℤ_positive a w n = (ground (arith, n), ground (arith, n), ground (arith, n))

-- What holds between the turns of the loop.
abbrev Between : ℕ → ℕ → List ℕ → Stores → Type 0
Between item l ids s = Backed s × AllOwn item l ids s.reservations

free_row-Between :
    (item l id : ℕ) (ids : List ℕ) (r : Reservation) (q : ℤ) (b : Balance) (s : Stores)
    → get_elem? s.reservations id ≡ some r
    → r.item ≡ item
    → r.location ≡ l
    → is_reservation_open r.status ≡ true
    → pos 0 ≤ℤ q
    → q ≤ℤ rest_of r
    → lookup (item, l) s.stock.balances ≡ some b
    → Between item l ids s
    → Between item l ids (free_row item l id r q b s)
unfolding free_row
free_row-Between item l id ids r q b s at of_item of_place o nn fits e h =
    let place : Path (ℕ × ℕ) (r.item, r.location) (item, l) = λ i. (of_item i, of_place i) in
    let row = subst (λ (k : ℕ × ℕ). lookup k s.stock.balances ≡ some b) (sym place) e in
    (
      subst (λ (k : ℕ × ℕ). Backed (free_row k.0 k.1 id r q b s)) place
          (free_row-Backed id r q b s h.0 at o nn fits row),
      set-AllOwn item l ids s.reservations id (consume q r) at
          (consume-OwnAt item l q r of_item of_place o) h.1,
    )

free_one-Between :
    (item l id : ℕ) (ids : List ℕ) (r : Reservation) (q : ℤ) (s : Stores)
    → get_elem? s.reservations id ≡ some r
    → r.item ≡ item
    → r.location ≡ l
    → is_reservation_open r.status ≡ true
    → pos 0 ≤ℤ q
    → q ≤ℤ rest_of r
    → Between item l ids s
    → Between item l ids (free_one item l id r q s).1
unfolding free_one
free_one-Between item l id ids r q s at of_item of_place o nn fits h =
    let after : Option Balance → Type 0 = λ row.
      Between item l ids
        ((or_raise row stock_row_missing >>= λ b. modify (free_row item l id r q b)) s).1 in
    elim (Option-cases (lookup (item, l) s.stock.balances)) [
      | inl n ↦ subst after (sym n) h
      | inr (b, e) ↦
          subst after (sym e)
            (free_row-Between item l id ids r q b s at of_item of_place o nn fits e h)
    ]

release_one-Backed :
    (item l id : ℕ) (ids : List ℕ) (o : Option Reservation) (wanted : ℤ)
    (go : ℤ → StoresAct (Unit {0})) (s : Stores)
    → get_elem? s.reservations id ≡ o
    → OwnAt item l o
    → Between item l ids s
    → ((w : ℤ) (t : Stores) → Between item l ids t → Backed (go w t).1)
    → Backed (release_one item l id o wanted go s).1
unfolding release_one
release_one-Backed item l id ids none wanted go s at own h rest = rest wanted s h
release_one-Backed item l id ids (some r) wanted go s at own h rest =
    let q = min_ℤ (rest_of r) wanted in
    elim (Bool-cases (leb_ℤ q (pos 0))) [
      | inl t ↦ rw t (rest wanted s h)
      | inr n ↦
          let (holds, nn, fits) = min_ℤ_positive (rest_of r) wanted n in
          rw n (
            after_bind Backed (Between item l ids) (free_one item l id r q) (λ _. go (wanted -ℤ q))
              s (free_one-Between item l id ids r q s at own.0 own.1 (own.2 holds) nn fits h)
              (λ t k. k.0) (λ _ t k. rest (wanted -ℤ q) t k))
    ]

pub release-Backed :
    (item l : ℕ) (ids : List ℕ) (wanted : ℤ) (s : Stores)
    → Between item l ids s
    → Backed (release item l ids wanted s).1
unfolding release
release-Backed item l [] wanted s h = h.0
release-Backed item l (id ∷ ids) wanted s h = elim (Bool-cases (leb_ℤ wanted (pos 0))) [
  | inl t ↦ rw t h.0
  | inr n ↦ rw n (
      release_one-Backed item l id ids (get_elem? s.reservations id) wanted (release item l ids) s
        refl h.1.0 (h.0, h.1.1) (release-Backed item l ids))
]
