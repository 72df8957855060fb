-- ===== src/Traceability/Serials/Genealogy.antt =====
-- `serial_genealogy` of apps/traceability/services.py. Of a node of the answer the id is kept, and
-- whether it is marked as a cycle; the texts that are shown with it are left out. The recursion of
-- `children` has a bound on its depth, `none` standing for a deeper one.
use mrp_django.Inventory.Model.{type_eq}
use mrp_django.Prelude.{
  List, Option, [], if◌then◌else◌, length, nat_eq, none, not, option_eq, pair_eq, some, suc,
  text_eq, zero, ℕ, ◌&&◌, ◌==◌, ◌∷◌,
}
use mrp_django.Traceability.Serials.Service.{SerialComponent}
use mrp_django.Walk.{is_in}

mutual
  pub data Tree : Type 0 where
    cycle_at : ℕ → Tree
    unit_of : ℕ → Trees → Tree

  pub data Trees : Type 0 where
    no_parts : Trees
    part_and : Tree → Trees → Trees

-- `node.installed_components.filter(removed_at__isnull=True)`: the components, in their order.
unfoldable pub parts_of : List SerialComponent → ℕ → List ℕ
parts_of [] node = []
parts_of (c ∷ cs) node =
    let rest = parts_of cs node in
    if c.parent_serial == node && not c.is_removed then c.component_serial ∷ rest else rest

abbrev pub prefixed : Option Tree → Option Trees → Option Trees
prefixed none ts = none
prefixed (some t) none = none
prefixed (some t) (some ts) = some (part_and t ts)

-- `[children(row.component_serial, next_visited) for row in rows]`
unfoldable pub all_children_of : (ℕ → Option Tree) → List ℕ → Option Trees
all_children_of f [] = some no_parts
all_children_of f (c ∷ cs) = prefixed (f c) (all_children_of f cs)

abbrev pub as_unit : ℕ → Option Trees → Option Tree
as_unit node none = none
as_unit node (some ts) = some (unit_of node ts)

unfoldable pub children : ℕ → List SerialComponent → List ℕ → ℕ → Option Tree
children zero rows visited node = if is_in node visited then some (cycle_at node) else none
children (suc fuel) rows visited node =
    let parts = all_children_of (children fuel rows (node ∷ visited)) (parts_of rows node) in
    if is_in node visited then some (cycle_at node) else as_unit node parts

-- No path of distinct serials is longer than the number of rows and one.
unfoldable pub serial_genealogy : List SerialComponent → ℕ → Option Tree
serial_genealogy rows node = children (suc (length rows)) rows [] node
