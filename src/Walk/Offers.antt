-- ===== src/Walk/Offers.antt =====
-- What a round adds to the set and to the queue.
use mrp_django.Inventory.Model.{type_eq}
use mrp_django.Prelude.{
  ==_iff, List, [], arith, false, if◌then◌else◌, length, nat_eq, not, option_eq, pair_eq, refl,
  text_eq, true, ℕ, ◌&&◌, ◌++◌, ◌+◌, ◌<◌, ◌==◌, ◌||◌, ◌∷◌, ◌≡◌, ◌≤◌,
}
use mrp_django.Walk.{Frontier, is_in, offer, offer_all}

is_in-append : (x : ℕ) (xs ys : List ℕ) → is_in x (xs ++ ys) ≡ (is_in x xs || is_in x ys)
unfolding is_in
is_in-append x [] ys = refl
is_in-append x (z ∷ xs) ys = ground (arith, is_in-append x xs ys)

offer-seen : (x v : ℕ) (s : Frontier) → is_in x (offer v s).seen ≡ ((v == x) || is_in x s.seen)
unfolding offer is_in
offer-seen x v s = ground (arith, ==_iff v x)

offer-queue :
    (x v : ℕ) (s : Frontier)
    → is_in x (offer v s).queue ≡ (is_in x s.queue || (v == x && not (is_in v s.seen)))
unfolding offer
offer-queue x v s = ground (arith, is_in-append x s.queue (v ∷ []), single)
  where
    single : is_in x (v ∷ []) ≡ (v == x)
    single = unfold is_in in ground arith

pub offer_all-seen :
    (x : ℕ) (vs : List ℕ) (s : Frontier)
    → is_in x (offer_all vs s).seen ≡ (is_in x vs || is_in x s.seen)
unfolding offer_all is_in
offer_all-seen x [] s = refl
offer_all-seen x (v ∷ vs) s = ground (arith, offer_all-seen x vs (offer v s), offer-seen x v s)

-- What is new in the set is in the queue, which loses nothing.
pub offer_all-queue :
    (x : ℕ) (vs : List ℕ) (s : Frontier)
    → is_in x (offer_all vs s).queue
      ≡ (is_in x s.queue || (is_in x (offer_all vs s).seen && not (is_in x s.seen)))
unfolding offer_all
offer_all-queue x [] s = ground arith
offer_all-queue x (v ∷ vs) s = ground (
  arith,
  ==_iff v x,
  offer_all-queue x vs (offer v s),
  offer-queue x v s,
  offer-seen x v s,
  offer_all-seen x vs (offer v s),
)

-- How many of `all` are not in the set.
unfoldable pub left : List ℕ → List ℕ → ℕ
left [] seen = 0
left (u ∷ all) seen = (if is_in u seen then 0 else 1) + left all seen

left-le : (all : List ℕ) (v : ℕ) (seen : List ℕ) → left all (v ∷ seen) ≤ left all seen
unfolding left is_in
left-le [] v seen = omega arith
left-le (u ∷ all) v seen = ground (arith, left-le all v seen)

pub left-lt :
    (all : List ℕ) (v : ℕ) (seen : List ℕ)
    → is_in v all ≡ true
    → is_in v seen ≡ false
    → left all (v ∷ seen) < left all seen
unfolding left is_in
left-lt [] v seen m n = cc
left-lt (u ∷ all) v seen m n =
    ground (arith, ==_iff u v, ==_iff v u, left-le all v seen, left-lt all v seen)

pub left-length : (all seen : List ℕ) → left all seen ≤ length all
unfolding left
left-length [] seen = omega arith
left-length (u ∷ all) seen = ground (arith, left-length all seen)
