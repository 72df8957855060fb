-- ===== src/Scheduling/Tests.antt =====
-- The theorems on windows at a concrete shift of a day.
use mrp_django.Prelude.{[], arith, codes, if◌then◌else◌, refl, ◌∷◌, ◌≡◌}
use mrp_django.Scheduling.Merging.{capacity-merge_adjacent}
use mrp_django.Scheduling.Windows.{
  Window, add_row, add_rows, back, capacity, capacity-subtract_busy, capacity-subtract_interval,
  cut_all, cut_window, front, insert_window, is_busy, is_inside, keep_proper, merge_adjacent,
  reversed_onto, sorted, subtract_busy, subtract_interval, touches,
}

abbrev shift : Window
shift = record { start = 480; end = 1020; factor = 100; kind = codes "REGULAR" }

abbrev late : Window
late = record { start = 1020; end = 1080; factor = 100; kind = codes "REGULAR" }

lunch_cut :
    subtract_interval (shift ∷ []) 720 780
    ≡ record shift { end = 720 } ∷ record shift { start = 780 } ∷ []
unfolding subtract_interval keep_proper cut_all cut_window front back
lunch_cut = refl

shift_merged : merge_adjacent (late ∷ shift ∷ []) ≡ record shift { end = 1080 } ∷ []
unfolding merge_adjacent sorted insert_window add_rows add_row touches reversed_onto
shift_merged = refl

capacity-subtract_interval_example :
    capacity 750 (subtract_interval (shift ∷ []) 720 780)
    ≡ (if is_inside 750 720 780 then 0 else capacity 750 (shift ∷ []))
capacity-subtract_interval_example =
    capacity-subtract_interval 750 (shift ∷ []) 720 780 (omega arith)

capacity-subtract_busy_example :
    capacity 800 (subtract_busy shift ((720, 780) ∷ []))
    ≡ (if is_busy 800 ((720, 780) ∷ []) then 0 else if is_inside 800 480 1020 then 100 else 0)
capacity-subtract_busy_example =
    capacity-subtract_busy 800 shift ((720, 780) ∷ []) (omega arith, tt)

capacity-merge_adjacent_example :
    capacity 1050 (merge_adjacent (late ∷ shift ∷ [])) ≡ capacity 1050 (late ∷ shift ∷ [])
capacity-merge_adjacent_example =
    capacity-merge_adjacent 1050 (late ∷ shift ∷ []) (omega arith, (omega arith, tt))
