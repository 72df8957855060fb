-- ===== src/Scheduling/Windows.antt =====
-- `_subtract_interval`, `_subtract_busy` and `_merge_adjacent` of
-- apps/integrated_scheduling/calendar_engine.py. Times are numbers of microseconds, a factor is a
-- whole number of its smallest step.
use Prim.Native.Nat.{max, min}
use mrp_django.Inventory.Model.{type_eq}
use mrp_django.Prelude.{
  Bool, List, Text, [], arith, false, if◌then◌else◌, leb, ltb, nat_eq, option_eq, pair_eq, refl,
  text_eq, ℕ, ◌&&◌, ◌++◌, ◌+◌, ◌==◌, ◌||◌, ◌∙◌, ◌∷◌, ◌≡◌, ◌≤◌,
}

pub record Window : Type 0 where
  pub start : ℕ
  pub end : ℕ
  pub factor : ℕ
  pub kind : Text

unfoldable pub front : Window → ℕ → List Window
front w cut_start =
    if ltb w.start cut_start then record w { end = min cut_start w.end } ∷ [] else []

unfoldable pub back : Window → ℕ → List Window
back w cut_end = if ltb cut_end w.end then record w { start = max cut_end w.start } ∷ [] else []

unfoldable pub cut_window : Window → ℕ → ℕ → List Window
cut_window w cut_start cut_end =
    if leb cut_end w.start || leb w.end cut_start
    then w ∷ []
    else front w cut_start ++ back w cut_end

unfoldable pub cut_all : List Window → ℕ → ℕ → List Window
cut_all [] cut_start cut_end = []
cut_all (w ∷ ws) cut_start cut_end = cut_window w cut_start cut_end ++ cut_all ws cut_start cut_end

unfoldable pub keep_proper : List Window → List Window
keep_proper [] = []
keep_proper (w ∷ ws) = let rest = keep_proper ws in if ltb w.start w.end then w ∷ rest else rest

unfoldable pub subtract_interval : List Window → ℕ → ℕ → List Window
subtract_interval ws cut_start cut_end = keep_proper (cut_all ws cut_start cut_end)

unfoldable pub subtract_all : List (ℕ × ℕ) → List Window → List Window
subtract_all [] pieces = pieces
subtract_all ((bs, be) ∷ busy) pieces = subtract_all busy (subtract_interval pieces bs be)

unfoldable pub subtract_busy : Window → List (ℕ × ℕ) → List Window
subtract_busy window busy = subtract_all busy (window ∷ [])

-- `sorted(windows, key=lambda x: x[0])`, which is stable.
unfoldable pub insert_window : Window → List Window → List Window
insert_window w [] = w ∷ []
insert_window w (v ∷ vs) =
    let rest = insert_window w vs in if leb w.start v.start then w ∷ v ∷ vs else v ∷ rest

unfoldable pub sorted : List Window → List Window
sorted [] = []
sorted (w ∷ ws) = insert_window w (sorted ws)

unfoldable pub touches : Window → Window → Bool
touches last row = last.end == row.start && last.factor == row.factor && last.kind == row.kind

-- `out`, with its last row first.
unfoldable pub add_row : Window → List Window → List Window
add_row row [] = row ∷ []
add_row row (last ∷ out) =
    if touches last row then record last { end = row.end } ∷ out else row ∷ last ∷ out

unfoldable pub add_rows : List Window → List Window → List Window
add_rows [] out = out
add_rows (row ∷ rows) out = add_rows rows (add_row row out)

unfoldable pub reversed_onto : List Window → List Window → List Window
reversed_onto [] out = out
reversed_onto (w ∷ ws) out = reversed_onto ws (w ∷ out)

unfoldable pub merge_adjacent : List Window → List Window
merge_adjacent ws = reversed_onto (add_rows (sorted ws) []) []

-- The abstract view: how much capacity there is at a time.
abbrev pub is_inside : ℕ → ℕ → ℕ → Bool
is_inside t start end = leb start t && ltb t end

unfoldable pub capacity : ℕ → List Window → ℕ
capacity t [] = 0
capacity t (w ∷ ws) = (if is_inside t w.start w.end then w.factor else 0) + capacity t ws

capacity-append :
    (t : ℕ) (xs ys : List Window) → capacity t (xs ++ ys) ≡ capacity t xs + capacity t ys
unfolding capacity
capacity-append t [] ys = omega arith
capacity-append t (x ∷ xs) ys = omega (arith, capacity-append t xs ys)

capacity-cut_window :
    (t : ℕ) (w : Window) (a b : ℕ)
    → a ≤ b
    → capacity t (cut_window w a b) ≡ (if is_inside t a b then 0 else capacity t (w ∷ []))
unfolding capacity cut_window front back
capacity-cut_window t w a b h = ground arith

capacity-keep_proper : (t : ℕ) (ws : List Window) → capacity t (keep_proper ws) ≡ capacity t ws
unfolding capacity keep_proper
capacity-keep_proper t [] = refl
capacity-keep_proper t (w ∷ ws) = ground (arith, capacity-keep_proper t ws)

capacity-cut_all :
    (t : ℕ) (ws : List Window) (a b : ℕ)
    → a ≤ b
    → capacity t (cut_all ws a b) ≡ (if is_inside t a b then 0 else capacity t ws)
unfolding capacity cut_all
capacity-cut_all t [] a b h = ground arith
capacity-cut_all t (w ∷ ws) a b h = ground (
  arith,
  capacity-append t (cut_window w a b) (cut_all ws a b),
  capacity-cut_window t w a b h,
  capacity-cut_all t ws a b h,
)

-- Subtracting an interval that does not end before it starts takes away all the capacity within it,
-- and none outside of it.
pub capacity-subtract_interval :
    (t : ℕ) (ws : List Window) (cut_start cut_end : ℕ)
    → cut_start ≤ cut_end
    → capacity t (subtract_interval ws cut_start cut_end)
      ≡ (if is_inside t cut_start cut_end then 0 else capacity t ws)
unfolding subtract_interval
capacity-subtract_interval t ws a b h =
    capacity-keep_proper t (cut_all ws a b) ∙ capacity-cut_all t ws a b h

-- Whether a time is in one of the intervals, and that they all end after they start.
unfoldable pub is_busy : ℕ → List (ℕ × ℕ) → Bool
is_busy t [] = false
is_busy t ((bs, be) ∷ busy) = is_inside t bs be || is_busy t busy

abbrev pub AllOrdered : List (ℕ × ℕ) → Type 0
AllOrdered [] = Unit {0}
AllOrdered ((bs, be) ∷ busy) = (bs ≤ be) × AllOrdered busy

capacity-subtract_all :
    (t : ℕ) (busy : List (ℕ × ℕ)) (ws : List Window)
    → AllOrdered busy
    → capacity t (subtract_all busy ws) ≡ (if is_busy t busy then 0 else capacity t ws)
unfolding subtract_all is_busy
capacity-subtract_all t [] ws h = refl
capacity-subtract_all t ((bs, be) ∷ busy) ws h = ground (
  arith,
  capacity-subtract_all t busy (subtract_interval ws bs be) h.1,
  capacity-subtract_interval t ws bs be h.0,
)

-- What is free of a window is its capacity at the times that are in no busy interval.
pub capacity-subtract_busy :
    (t : ℕ) (window : Window) (busy : List (ℕ × ℕ))
    → AllOrdered busy
    → capacity t (subtract_busy window busy) ≡ (
        if is_busy t busy
        then 0
        else if is_inside t window.start window.end
        then window.factor
        else 0)
unfolding subtract_busy capacity
capacity-subtract_busy t window busy h =
    ground (arith, capacity-subtract_all t busy (window ∷ []) h)
