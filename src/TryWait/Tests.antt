-- ===== src/TryWait/Tests.antt =====
-- vector-try-wait.c: two threads that take the vectors in opposite order.
use sysprg.Prelude.{ℕ, ◌<◌, ◌≡◌, refl, true, false, ℕ_discrete, arith}
use sysprg.Prelude.Reach.{Reach, here, next}
use sysprg.VectorAdd.{Config, thread_arg}
use sysprg.NoLock.{dst, src}
use sysprg.TryWait.{top, adding, System, start, takes_dst, takes_src, AnyStep, step}
use sysprg.TryWait.Returns.{can_return}
use sysprg.TryWait.Retries.{opposite}

-- Two threads with vectors of their own.
abbrev parallel : Config
parallel = record { loops = 1; num_threads = 2; cause_deadlock = false; enable_parallelism = true }

both_add :
    (s : System) × Reach (AnyStep parallel) start s × (s.pc 0 ≡ adding 0) × (s.pc 1 ≡ adding 0)
unfolding dst src thread_arg ℕ_discrete
both_add = (
  _,
  next
      (next
        (next (next here (step 0 (omega arith) (takes_dst 0 refl (omega arith) refl)))
          (step 1 (omega arith) (takes_dst 0 refl (omega arith) refl)))
        (step 0 (omega arith) (takes_src 0 refl refl)))
      (step 1 (omega arith) (takes_src 0 refl refl)),
  refl,
  refl,
)

-- Each of the two has its first mutex, which the other wants.
crossed : (s : System) × Reach (AnyStep (opposite 1)) start s
unfolding dst src thread_arg ℕ_discrete
crossed = (
  _,
  next (next here (step 0 (omega arith) (takes_dst 0 refl (omega arith) refl)))
      (step 1 (omega arith) (takes_dst 0 refl (omega arith) refl)),
)

can_return_example :
    (t : System) × Reach (AnyStep (opposite 1)) crossed.0 t × ((j : ℕ) → j < 2 → t.pc j ≡ top 1)
can_return_example = can_return (opposite 1) crossed.0 crossed.1
