-- ===== src/Traceability/Serials/Lineage.antt =====
-- The genealogy of a serial ends, and is the tree of what is installed.
use mrp_django.Inventory.Model.{type_eq}
use mrp_django.Prelude.{
  ==_iff, Bool-cases, List, Option, [], ap, arith, false, inl, inr, length, nat_eq, option_eq,
  pair_eq, refl, some, suc, text_eq, true, zero, ℕ, ◌+◌, ◌∷◌, ◌≡◌, ◌≤◌, ◌⊎◌,
}
use mrp_django.Traceability.Serials.Genealogy.{
  Tree, Trees, all_children_of, as_unit, children, cycle_at, no_parts, part_and, parts_of,
  serial_genealogy, unit_of,
}
use mrp_django.Traceability.Serials.Service.{SerialComponent}
use mrp_django.Walk.{is_in}
use mrp_django.Walk.Offers.{left, left-length, left-lt}

-- What a tree says of the rows: below a serial that is not on the path from the root stand exactly
-- its installed components, in their order, and a serial is marked as a cycle where the path has
-- come to it before.
unfoldable mutual
  pub Depicts : List SerialComponent → List ℕ → ℕ → Tree → Type 0
  Depicts rows visited id (cycle_at x) = (x ≡ id) × (is_in id visited ≡ true)
  Depicts rows visited id (unit_of x ts) =
      (x ≡ id) × (is_in id visited ≡ false) × DepictAll rows (id ∷ visited) (parts_of rows id) ts

  pub DepictAll : List SerialComponent → List ℕ → List ℕ → Trees → Type 0
  DepictAll rows visited [] no_parts = Unit
  DepictAll rows visited [] (part_and t ts) = ⊥
  DepictAll rows visited (c ∷ cs) no_parts = ⊥
  DepictAll rows visited (c ∷ cs) (part_and t ts) =
      Depicts rows visited c t × DepictAll rows visited cs ts

-- The serials that are components of a row.
unfoldable components_in : List SerialComponent → List ℕ
components_in [] = []
components_in (c ∷ cs) = c.component_serial ∷ components_in cs

length-components_in : (rows : List SerialComponent) → length (components_in rows) ≡ length rows
unfolding components_in
length-components_in [] = refl
length-components_in (c ∷ cs) = ap suc (length-components_in cs)

parts_of-is_in :
    (rows : List SerialComponent) (node c : ℕ)
    → is_in c (parts_of rows node) ≡ true
    → is_in c (components_in rows) ≡ true
unfolding parts_of components_in is_in
parts_of-is_in [] node c m = m
parts_of-is_in (r ∷ rows) node c m = ground (arith, m, parts_of-is_in rows node c)

all_children_of-Depicts :
    (rows : List SerialComponent) (visited : List ℕ) (f : ℕ → Option Tree) (cs : List ℕ)
    → ((c : ℕ) → is_in c cs ≡ true → (t : Tree) × (f c ≡ some t) × Depicts rows visited c t)
    → (ts : Trees) × (all_children_of f cs ≡ some ts) × DepictAll rows visited cs ts
unfolding all_children_of Depicts is_in
all_children_of-Depicts rows visited f [] h = (no_parts, refl, tt)
all_children_of-Depicts rows visited f (c ∷ cs) h =
    let (t, e, d) = h c (ground (arith, (==_iff c c).1 refl)) in
    let (ts, es, ds) = all_children_of-Depicts rows visited f cs (λ x m. h x (ground (arith, m))) in
    (part_and t ts, rw (e, es) refl, (d, ds))

children-Depicts :
    (fuel : ℕ) (rows : List SerialComponent) (visited : List ℕ) (node : ℕ)
    → is_in node visited ≡ true ⊎ (left (components_in rows) (node ∷ visited) + 1 ≤ fuel)
    → (t : Tree) × (children fuel rows visited node ≡ some t) × Depicts rows visited node t
unfolding children Depicts
children-Depicts zero rows visited node (inl t) = (cycle_at node, rw t refl, (refl, t))
children-Depicts zero rows visited node (inr m) = absurd (omega (arith, m))
children-Depicts (suc fuel) rows visited node (inl t) = (cycle_at node, rw t refl, (refl, t))
children-Depicts (suc fuel) rows visited node (inr m) = elim (Bool-cases (is_in node visited)) [
  | inl t ↦ (cycle_at node, rw t refl, (refl, t))
  | inr n ↦
      let visited' : List ℕ = node ∷ visited in
      let (ts, e, d) =
        all_children_of-Depicts rows visited' (children fuel rows visited') (parts_of rows node)
          (λ c i. children-Depicts fuel rows visited' c (elim (Bool-cases (is_in c visited')) [
            | inl t ↦ inl t
            | inr f ↦ inr (
                omega (
                  arith,
                  m,
                  left-lt (components_in rows) c visited' (parts_of-is_in rows node c i) f,
                ))
          ])) in
      (unit_of node ts, rw n (ap (as_unit node) e), (refl, n, d))
]

-- The recursion ends within its bound, whatever is installed in what, and its answer depicts the
-- rows.
pub serial_genealogy-Depicts :
    (rows : List SerialComponent) (node : ℕ)
    → (t : Tree) × (serial_genealogy rows node ≡ some t) × Depicts rows [] node t
unfolding serial_genealogy
serial_genealogy-Depicts rows node =
    children-Depicts (suc (length rows)) rows [] node
      (inr (omega (arith, left-length (components_in rows) (node ∷ []), length-components_in rows)))
