-- ===== src/Barrier/Threads/Tests.antt =====
-- Runs of two children.
use sysprg.Prelude.{zero, suc, ◌*◌, ◌⊎◌, ◌≤◌, ◌≡◌, refl, ℕ_discrete, arith}
use sysprg.Prelude.Int.{◌+ℤ◌, ◌-ℤ◌}
use sysprg.Prelude.Reach.{Reach, here, next, steps}
use sysprg.Barrier.{barrier_init}
use sysprg.Barrier.Threads.Inside.{AllInside}
use sysprg.Barrier.Threads.{
  finished, System, start, say_before, lock_in, decrement, post_in, lock_out, says_before, Move,
  Step, step,
}
use sysprg.Barrier.Threads.Progress.{AllFinished, Goes, Blocked, barrier_ends}
use sysprg.Barrier.Threads.Early.{early_after}

-- Both children are inside.
both_in : (s : System) × Reach (Step 2) (start 2) s
unfolding start barrier_init ◌+ℤ◌ ◌-ℤ◌ ℕ_discrete
both_in = (
  _,
  (next
      (next
        (next
          (next
            (next
              (next
                (next (next here (step 0 (omega arith) (say_before refl)))
                  (step 0 (omega arith) (lock_in 0 refl refl)))
                (step 0 (omega arith) (decrement refl)))
              (step 0 (omega arith) (post_in refl)))
            (step 1 (omega arith) (say_before refl)))
          (step 1 (omega arith) (lock_in 0 refl refl)))
        (step 1 (omega arith) (decrement refl)))
      (step 1 (omega arith) (post_in refl))),
)

both_in-AllInside : AllInside 2 both_in.0
unfolding both_in start barrier_init ◌+ℤ◌ ◌-ℤ◌ ℕ_discrete
both_in-AllInside zero lt = refl
both_in-AllInside (suc zero) lt = refl
both_in-AllInside (suc (suc j)) lt = absurd (omega arith)

-- One of them starts to leave.
leaving : (t : System) × Reach (Step 2) both_in.0 t
unfolding both_in start barrier_init ◌+ℤ◌ ◌-ℤ◌ ℕ_discrete
leaving = (_, next here (step 1 (omega arith) (lock_out 0 refl refl)))

early_after_example :
    (s : System) × Reach (Step 2) (start 2) s
    × (s.pc 0 ≡ finished)
    × (s.pc 1 ≡ says_before)
    × ((t : System) × Reach (Move 1) s t × Blocked 2 1 t)
early_after_example = early_after 2 (omega arith)

barrier_ends_example :
    (AllFinished 2 both_in.0 ⊎ Goes 2 both_in.0) × (steps (Step 2) both_in.1 ≤ 10 * 2)
barrier_ends_example = barrier_ends 2 both_in.0 both_in.1
