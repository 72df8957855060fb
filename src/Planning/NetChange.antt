-- ===== src/Planning/NetChange.antt =====
-- `affected_item_scope` of apps/planning/net_change.py. The active lines of the bill of materials are
-- pairs of a parent and a component; sets are lists, whose order does not matter.
use mrp_django.Inventory.Model.{type_eq}
use mrp_django.Prelude.{
  List, Option, [], if◌then◌else◌, length, nat_eq, none, option_eq, pair_eq, some, text_eq, ℕ, ◌+◌,
  ◌==◌, ◌∷◌,
}
use mrp_django.Walk.{walk}

-- `parents_by_component`
unfoldable pub parents_of : List (ℕ × ℕ) → ℕ → List ℕ
parents_of [] c = []
parents_of ((p, k) ∷ lines) c = let rest = parents_of lines c in if k == c then p ∷ rest else rest

-- `children_by_parent`
unfoldable pub children_of : List (ℕ × ℕ) → ℕ → List ℕ
children_of [] p = []
children_of ((q, k) ∷ lines) p = let rest = children_of lines p in if q == p then k ∷ rest else rest

unfoldable pub all_parents : List (ℕ × ℕ) → List ℕ
all_parents [] = []
all_parents ((p, k) ∷ lines) = p ∷ all_parents lines

unfoldable pub all_children : List (ℕ × ℕ) → List ℕ
all_children [] = []
all_children ((p, k) ∷ lines) = k ∷ all_children lines

-- The two searches, each with a round for every id that it begins with and for every line.
unfoldable pub search_from : List ℕ → (ℕ → List ℕ) → List (ℕ × ℕ) → Option (List ℕ)
search_from ids next lines = walk (length ids + length lines) next ids ids

abbrev pub scope_below : Option (List ℕ) → List (ℕ × ℕ) → Option (List ℕ)
scope_below none lines = none
scope_below (some ancestors) lines = search_from ancestors (children_of lines) lines

unfoldable pub scope_of : List ℕ → List (ℕ × ℕ) → Option (List ℕ)
scope_of ids lines = scope_below (search_from ids (parents_of lines) lines) lines

-- Without a change to go by, it is all active items.
unfoldable pub affected_item_scope : List ℕ → List ℕ → List (ℕ × ℕ) → Option (List ℕ)
affected_item_scope active [] lines = some active
affected_item_scope active (i ∷ ids) lines = scope_of (i ∷ ids) lines
