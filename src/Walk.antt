-- ===== src/Walk.antt =====
-- Worklist searches over ids, as apps/planning/net_change.py writes them twice: `seen` is the set,
-- `queue` the deque.
pub mod Offers
pub mod Search
use mrp_django.Inventory.Model.{type_eq}
use mrp_django.Prelude.{
  Bool, List, Option, [], false, if◌then◌else◌, nat_eq, none, option_eq, pair_eq, some, suc,
  text_eq, zero, ℕ, ◌++◌, ◌==◌, ◌||◌, ◌∷◌,
}

unfoldable pub is_in : ℕ → List ℕ → Bool
is_in x [] = false
is_in x (y ∷ ys) = y == x || is_in x ys

pub record Frontier : Type 0 where
  pub seen : List ℕ
  pub queue : List ℕ

-- `if v not in seen: seen.add(v); queue.append(v)`
unfoldable pub offer : ℕ → Frontier → Frontier
offer v s = if is_in v s.seen then s else record { seen = v ∷ s.seen; queue = s.queue ++ v ∷ [] }

unfoldable pub offer_all : List ℕ → Frontier → Frontier
offer_all [] s = s
offer_all (v ∷ vs) s = offer_all vs (offer v s)

-- The `while queue` loop, with a bound on its rounds; `none` when the bound is met.
unfoldable pub walk : ℕ → (ℕ → List ℕ) → List ℕ → List ℕ → Option (List ℕ)
walk fuel next seen [] = some seen
walk zero next seen (u ∷ queue) = none
walk (suc fuel) next seen (u ∷ queue) =
    let s = offer_all (next u) (record { seen = seen; queue = queue }) in
    walk fuel next s.seen s.queue
