-- ===== src/Exercises/Tests.antt =====
-- rendezvous.c: the first child ends before the second begins.
use sysprg.Prelude.{◌≡◌, ◌↔◌, List, [], ◌∷◌}
use sysprg.Exercises.{
  Line, parent_begin, parent_end, before_1, after_1, before_2, after_2, prints_first, prints_last,
  CanPrint, fork_join, rendezvous, signal,
}
use sysprg.Exercises.Outputs.{OneOf}
use sysprg.Exercises.Programs.{orders, of_child, all_outputs}

abbrev apart : List Line
apart = parent_begin ∷ before_1 ∷ after_1 ∷ before_2 ∷ after_2 ∷ parent_end ∷ []

all_outputs_example :
    (CanPrint rendezvous apart ↔ OneOf apart orders)
    × (CanPrint fork_join apart ↔ OneOf apart of_child)
    × (CanPrint signal apart ↔ (apart ≡ prints_first ∷ prints_last ∷ []))
all_outputs_example = all_outputs apart
