-- ===== src/VectorAdd/Tests.antt =====
-- The vectors of threads-bugs with two threads.
use sysprg.Prelude.{ℕ, ◌≤◌, ◌≡◌, ◌↔◌, refl, true, false, List, [], ◌∷◌, get_or, length, ℕ_discrete}
use sysprg.Prelude.Int.{ℤ, pos, pos_part}
use sysprg.Options.Reading.{last_of}
use sysprg.VectorAdd.{
  System, Step, here, init, vector_add_avoid_hold_and_wait, vector_init, add_values, worker,
}
use sysprg.VectorAdd.Deadlock.{Deadlocks}
use sysprg.VectorAdd.Choices.{
  RunSettings, run_defaults, runs, config, main_run, getopt_loop, switch_option,
}
use sysprg.VectorAdd.Outcome.{main-Deadlocks, main_avoid_hold}

-- `-d -l 21`, with an `atoi` that gives the length.
abbrev long : List ℕ → ℤ
long text = pos (length text)

abbrev given : List (ℕ × List ℕ)
given = (b'd', []) ∷ (b'l', b'2' ∷ b'1' ∷ []) ∷ []

abbrev settings : RunSettings
settings = record run_defaults { loops = pos 2; cause_deadlock = true }

given-runs : main_run long given ≡ runs settings
unfolding main_run getopt_loop switch_option
given-runs = refl

main-Deadlocks_example : Deadlocks (config settings) ↔ (
    (last_of (λ a. true) b'd' false given ≡ true)
    × (last_of (λ a. true) b'p' false given ≡ false)
    × (1 ≤ pos_part (last_of long b'l' (pos 1) given))
    × (2 ≤ pos_part (last_of long b'n' (pos 2) given)))
main-Deadlocks_example = main-Deadlocks long given settings given-runs

main_avoid_hold_example :
    (u : System) × Step (init vector_add_avoid_hold_and_wait (config settings)) u
unfolding init vector_add_avoid_hold_and_wait worker
main_avoid_hold_example = main_avoid_hold long given settings _ 0 given-runs here (λ e. cc)

-- A vector added to itself is doubled.
doubled : get_or (add_values 7 7 vector_init 7) 99 0 ≡ 14
unfolding add_values vector_init ℕ_discrete
doubled = refl
