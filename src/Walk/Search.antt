-- ===== src/Walk/Search.antt =====
-- The search ends within as many rounds as there are ids to find, and finds the closed set.
use mrp_django.Inventory.Model.{type_eq}
use mrp_django.Prelude.{
  ==_iff, Bool-cases, List, [], arith, false, inl, inr, length, length-append, nat_eq, option_eq,
  pair_eq, refl, some, suc, text_eq, true, zero, ℕ, ◌++◌, ◌+◌, ◌∷◌, ◌≡◌, ◌≤◌,
}
use mrp_django.Walk.{Frontier, is_in, offer, offer_all, walk}
use mrp_django.Walk.Offers.{left, left-length, left-lt, offer_all-queue, offer_all-seen}

-- The set has what it began with, and each id in it is queued or has its neighbours in it.
record IsClosing (next : ℕ → List ℕ) (seen queue : List ℕ) : Type 0 where
  queued : (x : ℕ) → is_in x queue ≡ true → is_in x seen ≡ true
  closed :
      (x y : ℕ)
      → is_in x seen ≡ true
      → is_in x queue ≡ false
      → is_in y (next x) ≡ true
      → is_in y seen ≡ true

-- The set that a search returns, with `P` true of all of it.
pub record Found (next : ℕ → List ℕ) (P : ℕ → Type 0) (seen : List ℕ) (found : List ℕ)
    : Type 0 where
  pub kept : (x : ℕ) → is_in x seen ≡ true → is_in x found ≡ true
  pub closed : (x y : ℕ) → is_in x found ≡ true → is_in y (next x) ≡ true → is_in y found ≡ true
  pub sound : (x : ℕ) → is_in x found ≡ true → P x

module _ (next : ℕ → List ℕ) (all : List ℕ) (P : ℕ → Type 0)
    (in_all : (x y : ℕ) → is_in y (next x) ≡ true → is_in y all ≡ true)
    (step : (x y : ℕ) → P x → is_in y (next x) ≡ true → P y) where
  IsClosing-round :
      (u : ℕ) (seen queue : List ℕ)
      → IsClosing next seen (u ∷ queue)
      → let s = offer_all (next u) (record { seen = seen; queue = queue }) in
        IsClosing next s.seen s.queue
  unfolding is_in
  IsClosing-round u seen queue h =
      let s : Frontier = record { seen = seen; queue = queue } in
      record {
        queued = λ x q.
            ground (arith, offer_all-seen x (next u) s, offer_all-queue x (next u) s, h.queued x);
        closed = λ x y m n e. ground (
          arith,
          ==_iff u x,
          offer_all-seen x (next u) s,
          offer_all-seen y (next u) s,
          offer_all-queue x (next u) s,
          h.closed x y,
        );
      }

  sound-round :
      (u : ℕ) (seen queue : List ℕ)
      → P u
      → ((x : ℕ) → is_in x seen ≡ true → P x)
      → (x : ℕ) → is_in x (offer_all (next u) (record { seen = seen; queue = queue })).seen ≡ true
      → P x
  sound-round u seen queue pu ps x m = elim (Bool-cases (is_in x (next u))) [
    | inl t ↦ step u x pu t
    | inr f ↦
        ps x (ground (arith, f, offer_all-seen x (next u) (record { seen = seen; queue = queue })))
  ]

  -- A round takes one id off what is left and what waits.
  offer_all-left :
      (vs : List ℕ) (s : Frontier)
      → ((y : ℕ) → is_in y vs ≡ true → is_in y all ≡ true)
      → left all (offer_all vs s).seen + length (offer_all vs s).queue
        ≤ left all s.seen + length s.queue
  unfolding offer_all is_in offer
  offer_all-left [] s h = omega arith
  offer_all-left (v ∷ vs) s h = elim (Bool-cases (is_in v s.seen)) [
    | inl t ↦ ground (arith, t, offer_all-left vs s (λ y m. h y (ground (arith, m))))
    | inr f ↦
        let s' : Frontier = record { seen = v ∷ s.seen; queue = s.queue ++ v ∷ [] } in
        ground (
          arith,
          f,
          offer_all-left vs s' (λ y m. h y (ground (arith, m))),
          length-append s.queue (v ∷ []),
          left-lt all v s.seen (h v (ground (arith, (==_iff v v).1 refl))) f,
        )
  ]

  walk-Found :
      (fuel : ℕ) (seen queue : List ℕ)
      → left all seen + length queue ≤ fuel
      → IsClosing next seen queue
      → ((x : ℕ) → is_in x seen ≡ true → P x)
      → (found : List ℕ) × (walk fuel next seen queue ≡ some found) × Found next P seen found
  unfolding walk is_in
  walk-Found fuel seen [] m h ps = (
    seen,
    refl,
    record { kept = λ x i. i; closed = λ x y i e. h.closed x y i refl e; sound = ps },
  )
  walk-Found zero seen (u ∷ queue) m h ps = absurd (omega arith)
  walk-Found (suc fuel) seen (u ∷ queue) m h ps =
      let s = offer_all (next u) (record { seen = seen; queue = queue }) in
      let smaller = offer_all-left (next u) (record { seen = seen; queue = queue }) (in_all u) in
      let pu = ps u (h.queued u (ground (arith, (==_iff u u).1 refl))) in
      let (found, e, f) =
        walk-Found fuel s.seen s.queue (omega (arith, smaller, m)) (IsClosing-round u seen queue h)
          (sound-round u seen queue pu ps) in
      (
        found,
        e,
        record {
          kept = λ x i.
              f.kept x
                (ground (arith, offer_all-seen x (next u) (record { seen = seen; queue = queue })));
          closed = f.closed;
          sound = f.sound;
        },
      )

  -- A search from a set of ids, with as many rounds as they and all others.
  pub walk-lem :
      (ids : List ℕ)
      → ((x : ℕ) → is_in x ids ≡ true → P x)
      → (found : List ℕ) × (walk (length ids + length all) next ids ids ≡ some found)
        × Found next P ids found
  walk-lem ids ps =
      walk-Found (length ids + length all) ids ids (omega (arith, left-length all ids))
        (record { queued = λ x q. q; closed = λ x y m n e. ground (arith, m, n) }) ps
