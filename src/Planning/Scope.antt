-- ===== src/Planning/Scope.antt =====
-- The scope of a net-change run is the network of the changed items: everything below something
-- that they go into.
use mrp_django.Planning.NetChange.{
  affected_item_scope, all_children, all_parents, children_of, parents_of, scope_of, search_from,
}
use mrp_django.Prelude.{List, [], ap, arith, length, refl, some, suc, true, ℕ, ◌↔◌, ◌∷◌, ◌≡◌}
use mrp_django.Walk.{is_in}
use mrp_django.Walk.Search.{Found, walk-lem}

-- What an item goes into, at any distance.
pub data IsAncestor (lines : List (ℕ × ℕ)) (ids : List ℕ) : ℕ → Type 0 where
  changed : {x : ℕ} → is_in x ids ≡ true → IsAncestor lines ids x
  parent :
      {x p : ℕ}
      → IsAncestor lines ids x
      → is_in p (parents_of lines x) ≡ true
      → IsAncestor lines ids p

pub data IsAffected (lines : List (ℕ × ℕ)) (ids : List ℕ) : ℕ → Type 0 where
  ancestor : {x : ℕ} → IsAncestor lines ids x → IsAffected lines ids x
  component :
      {x c : ℕ}
      → IsAffected lines ids x
      → is_in c (children_of lines x) ≡ true
      → IsAffected lines ids c

parents_of-all_parents :
    (lines : List (ℕ × ℕ)) (c p : ℕ)
    → is_in p (parents_of lines c) ≡ true
    → is_in p (all_parents lines) ≡ true
unfolding parents_of all_parents is_in
parents_of-all_parents [] c p m = m
parents_of-all_parents ((q, k) ∷ lines) c p m = ground (arith, parents_of-all_parents lines c p)

children_of-all_children :
    (lines : List (ℕ × ℕ)) (p c : ℕ)
    → is_in c (children_of lines p) ≡ true
    → is_in c (all_children lines) ≡ true
unfolding children_of all_children is_in
children_of-all_children [] p c m = m
children_of-all_children ((q, k) ∷ lines) p c m = ground (arith, children_of-all_children lines p c)

length-all_parents : (lines : List (ℕ × ℕ)) → length (all_parents lines) ≡ length lines
unfolding all_parents
length-all_parents [] = refl
length-all_parents (l ∷ lines) = ap suc (length-all_parents lines)

length-all_children : (lines : List (ℕ × ℕ)) → length (all_children lines) ≡ length lines
unfolding all_children
length-all_children [] = refl
length-all_children (l ∷ lines) = ap suc (length-all_children lines)

module _ (lines : List (ℕ × ℕ)) (ids : List ℕ) where
  ancestors-Found :
      (found : List ℕ) × (search_from ids (parents_of lines) lines ≡ some found)
      × Found (parents_of lines) (IsAncestor lines ids) ids found
  unfolding search_from
  ancestors-Found = rw (← length-all_parents lines) (
      walk-lem (parents_of lines) (all_parents lines) (IsAncestor lines ids)
        (parents_of-all_parents lines) (λ x p a m. parent a m) ids (λ x m. changed m))

  components-Found :
      (tops : List ℕ)
      → ((x : ℕ) → is_in x tops ≡ true → IsAncestor lines ids x)
      → (found : List ℕ) × (search_from tops (children_of lines) lines ≡ some found)
        × Found (children_of lines) (IsAffected lines ids) tops found
  unfolding search_from
  components-Found tops all = rw (← length-all_children lines) (
      walk-lem (children_of lines) (all_children lines) (IsAffected lines ids)
        (children_of-all_children lines) (λ x c a m. component a m) tops
        (λ x m. ancestor (all x m)))

  is_above :
      (tops : List ℕ)
      → Found (parents_of lines) (IsAncestor lines ids) ids tops
      → (x : ℕ) → IsAncestor lines ids x
      → is_in x tops ≡ true
  is_above tops f x (changed m) = f.kept x m
  is_above tops f x (parent {x = y} a m) = f.closed y x (is_above tops f y a) m

  is_below :
      (tops found : List ℕ)
      → Found (parents_of lines) (IsAncestor lines ids) ids tops
      → Found (children_of lines) (IsAffected lines ids) tops found
      → (x : ℕ) → IsAffected lines ids x
      → is_in x found ≡ true
  is_below tops found f g x (ancestor a) = g.kept x (is_above tops f x a)
  is_below tops found f g x (component {x = y} a m) = g.closed y x (is_below tops found f g y a) m

-- Whatever cycles the bill of materials has, the searches end within one round for each id and each
-- line, and the scope of some changed items is exactly those that lie, over any number of active
-- lines, below a changed item or below something that a changed item goes into.
pub affected_item_scope-IsAffected :
    (active ids : List ℕ) (i : ℕ) (lines : List (ℕ × ℕ))
    → (scope : List ℕ) × (affected_item_scope active (i ∷ ids) lines ≡ some scope)
      × ((x : ℕ) → (is_in x scope ≡ true) ↔ IsAffected lines (i ∷ ids) x)
unfolding affected_item_scope scope_of
affected_item_scope-IsAffected active ids i lines =
    let (tops, e, f) = ancestors-Found lines (i ∷ ids) in
    let (scope, e', g) = components-Found lines (i ∷ ids) tops f.sound in
    (scope, rw (e, e') refl, λ x. (g.sound x, is_below lines (i ∷ ids) tops scope f g x))
