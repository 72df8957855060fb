-- ===== src/Scheduling/Merging.antt =====
-- Merging the windows of a resource changes how they are written, not what capacity they give.
use mrp_django.Inventory.Model.{type_eq}
use mrp_django.Prelude.{
  ==_iff, Bool-cases, List, [], arith, inl, inr, leb, nat_eq, option_eq, pair_eq, refl, text_eq, ℕ,
  ◌+◌, ◌∷◌, ◌≡◌, ◌≤◌,
}
use mrp_django.Scheduling.Windows.{
  Window, add_row, add_rows, capacity, insert_window, merge_adjacent, reversed_onto, sorted,
  touches,
}

abbrev pub AllProper : List Window → Type 0
AllProper [] = Unit {0}
AllProper (w ∷ ws) = (w.start ≤ w.end) × AllProper ws

insert_window-keeps :
    (t : ℕ) (w : Window) (ws : List Window)
    → AllProper (w ∷ ws)
    → AllProper (insert_window w ws) × (capacity t (insert_window w ws) ≡ capacity t (w ∷ ws))
unfolding insert_window capacity
insert_window-keeps t w [] h = (h, refl)
insert_window-keeps t w (v ∷ vs) h = elim (Bool-cases (leb w.start v.start)) [
  | inl y ↦ rw y (h, refl)
  | inr n ↦
      let (proper, same) = insert_window-keeps t w vs (h.0, h.1.1) in
      rw n ((h.1.0, proper), omega (arith, same))
]

sorted-keeps :
    (t : ℕ) (ws : List Window)
    → AllProper ws
    → AllProper (sorted ws) × (capacity t (sorted ws) ≡ capacity t ws)
unfolding sorted capacity
sorted-keeps t [] h = (tt, refl)
sorted-keeps t (w ∷ ws) h =
    let (proper, same) = sorted-keeps t ws h.1 in
    let (all, whole) = insert_window-keeps t w (sorted ws) (h.0, proper) in
    (all, omega (arith, whole, same))

add_row-keeps :
    (t : ℕ) (row : Window) (out : List Window)
    → AllProper (row ∷ out)
    → AllProper (add_row row out) × (capacity t (add_row row out) ≡ capacity t (row ∷ out))
unfolding add_row capacity touches
add_row-keeps t row [] h = (h, refl)
add_row-keeps t row (last ∷ out) h = elim (Bool-cases (touches last row)) [
  | inl y ↦
      let join : last.end ≡ row.start = ground (arith, ==_iff last.end row.start) in
      let same : last.factor ≡ row.factor = ground (arith, ==_iff last.factor row.factor) in
      rw y ((omega (arith, join, h.0, h.1.0), h.1.1), ground (arith, join, same, h.0, h.1.0))
  | inr n ↦ rw n (h, refl)
]

add_rows-keeps :
    (t : ℕ) (rows out : List Window)
    → AllProper rows
    → AllProper out
    → capacity t (add_rows rows out) ≡ capacity t rows + capacity t out
unfolding add_rows capacity
add_rows-keeps t [] out h k = omega arith
add_rows-keeps t (row ∷ rows) out h k =
    let (proper, same) = add_row-keeps t row out (h.0, k) in
    omega (arith, add_rows-keeps t rows (add_row row out) h.1 proper, same)

reversed_onto-keeps :
    (t : ℕ) (ws out : List Window)
    → capacity t (reversed_onto ws out) ≡ capacity t ws + capacity t out
unfolding reversed_onto capacity
reversed_onto-keeps t [] out = omega arith
reversed_onto-keeps t (w ∷ ws) out = omega (arith, reversed_onto-keeps t ws (w ∷ out))

-- For windows that do not end before they start, the merged ones have the same capacity at every
-- time.
pub capacity-merge_adjacent :
    (t : ℕ) (ws : List Window) → AllProper ws → capacity t (merge_adjacent ws) ≡ capacity t ws
unfolding merge_adjacent capacity
capacity-merge_adjacent t ws h =
    let (proper, same) = sorted-keeps t ws h in
    omega (
      arith,
      reversed_onto-keeps t (add_rows (sorted ws) []) [],
      add_rows-keeps t (sorted ws) [] proper tt,
      same,
    )
