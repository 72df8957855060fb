-- ===== src/Planning/Tests.antt =====
-- Lot sizes of a concrete requirement, and the scope of a change in a bill of materials.
use mrp_django.Planning.NetChange.{
  affected_item_scope, children_of, parents_of, scope_of, search_from,
}
use mrp_django.Planning.Scope.{IsAffected, affected_item_scope-IsAffected}
use mrp_django.Planning.Sizing.{
  IsAllowed, IsLeast, ItemPlantPolicy, ceil_multiple, lot_size, lot_size-IsLeast, multiple, sized,
}
use mrp_django.Prelude.{List, [], negsuc, pos, refl, some, true, ℕ, ◌↔◌, ◌∷◌, ◌≡◌}
use mrp_django.Walk.{is_in, offer, offer_all, walk}

abbrev boxes : ItemPlantPolicy
boxes = record {
  lot_sizing_rule = multiple;
  fixed_order_quantity = 0;
  minimum_order_quantity = 0;
  order_multiple = 120000;
}

boxes_for_25 : lot_size (pos 250000) (some boxes) ≡ 360000
unfolding lot_size sized ceil_multiple
boxes_for_25 = refl

lot_size-IsLeast_example :
    IsLeast 250000 (IsAllowed (some boxes)) (lot_size (pos 250000) (some boxes))
    × (lot_size (pos 0) (some boxes) ≡ 0)
    × (lot_size (negsuc 249999) (some boxes) ≡ 0)
lot_size-IsLeast_example = lot_size-IsLeast 249999 (some boxes)

-- 1 is made of 2 and 3, 3 of 4, 5 of 4, and 6 of 7.
abbrev bom : List (ℕ × ℕ)
bom = (1, 2) ∷ (1, 3) ∷ (3, 4) ∷ (5, 4) ∷ (6, 7) ∷ []

scope_of_3 : affected_item_scope [] (3 ∷ []) bom ≡ some (4 ∷ 2 ∷ 1 ∷ 3 ∷ [])
unfolding affected_item_scope scope_of search_from parents_of children_of walk offer_all offer is_in
scope_of_3 = refl

affected_item_scope-IsAffected_example :
    (scope : List ℕ) × (affected_item_scope [] (3 ∷ []) bom ≡ some scope)
    × ((x : ℕ) → (is_in x scope ≡ true) ↔ IsAffected bom (3 ∷ []) x)
affected_item_scope-IsAffected_example = affected_item_scope-IsAffected [] [] 3 bom
