-- ===== src/Barrier/Threads/Early.antt =====
-- barrier.c: a child that does not wait for the others.
use sysprg.Prelude.{ℕ, ◌≤◌, ◌≡◌, refl, ℕ_discrete, arith}
use sysprg.Prelude.Int.{◌+ℤ◌, ◌-ℤ◌}
use sysprg.Prelude.Reach.{Reach, here, next}
use sysprg.Barrier.{barrier_init}
use sysprg.Barrier.Threads.{
  says_before, finished, System, start, say_before, lock_in, decrement, post_in, lock_out,
  increment, play_out, post_out, say_after, Move, Step, step,
}
use sysprg.Barrier.Threads.Progress.{Blocked}

-- With two children or more, a child can have finished, its last print included, when another one
-- has not begun to; and by steps of its own only the other one comes from there to wait for
-- `playlock`, which is 0, while it has `lock`.
pub early_after :
    (n : ℕ)
    → 2 ≤ n
    → (s : System) × Reach (Step n) (start n) s
      × (s.pc 0 ≡ finished)
      × (s.pc 1 ≡ says_before)
      × ((t : System) × Reach (Move 1) s t × Blocked n 1 t)
unfolding start barrier_init ◌+ℤ◌ ◌-ℤ◌ ℕ_discrete
early_after n two = (
  _,
  (next
      (next
        (next
          (next
            (next
              (next
                (next
                  (next (next here (step 0 (omega arith) (say_before refl)))
                    (step 0 (omega arith) (lock_in 0 refl refl)))
                  (step 0 (omega arith) (decrement refl)))
                (step 0 (omega arith) (post_in refl)))
              (step 0 (omega arith) (lock_out 0 refl refl)))
            (step 0 (omega arith) (increment refl)))
          (step 0 (omega arith) (play_out 0 refl refl)))
        (step 0 (omega arith) (post_out refl)))
      (step 0 (omega arith) (say_after refl))),
  refl,
  refl,
  (
    _,
    (next
        (next
          (next (next (next (next here (say_before refl)) (lock_in 0 refl refl)) (decrement refl))
            (post_in refl))
          (lock_out 0 refl refl))
        (increment refl)),
    (omega arith, refl, refl, refl),
  ),
)
