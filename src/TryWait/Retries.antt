-- ===== src/TryWait/Retries.antt =====
-- vector-try-wait.c: two threads that fail for ever.
use sysprg.Prelude.{ℕ, zero, suc, ◌+◌, ◌≤◌, ◌<◌, ◌≡◌, refl, true, false, none, ℕ_discrete, arith}
use sysprg.Prelude.Reach.{Reach, here, next, steps}
use sysprg.VectorAdd.{Config, thread_arg}
use sysprg.NoLock.{dst, src}
use sysprg.TryWait.{top, System, start, takes_dst, fails_src, backs_off, AnyStep, step}

-- Two threads with option `-d`: they take the two vectors in opposite order.
abbrev pub opposite : ℕ → Config
opposite loops = record {
  loops = loops;
  num_threads = 2;
  cause_deadlock = true;
  enable_parallelism = false;
}

module _ (loops : ℕ) (some_loops : 0 < loops) where
  -- Neither thread has a mutex, and no call has returned.
  record Fresh (s : System) : Type 0 where
    first : s.pc 0 ≡ top 0
    other : s.pc 1 ≡ top 0
    free_0 : s.owner 0 ≡ none
    free_1 : s.owner 1 ≡ none

  -- Each takes its first mutex, fails at the second and backs off.
  abbrev Again : (s0 s : System) → Reach (AnyStep (opposite loops)) s0 s → Type 0
  Again s0 s r =
      (t : System) × (q : Reach (AnyStep (opposite loops)) s0 t) × Fresh t
      × (steps (AnyStep (opposite loops)) q ≡ steps (AnyStep (opposite loops)) r + 6)

  again : (s0 s : System) (r : Reach (AnyStep (opposite loops)) s0 s) → Fresh s → Again s0 s r
  unfolding dst src thread_arg ℕ_discrete steps
  again s0 s r f = (
    _,
    next
        (next
          (next
            (next
              (next (next r (step 0 (omega arith) (takes_dst 0 f.first some_loops f.free_0)))
                (step 1 (omega arith) (takes_dst 0 f.other some_loops f.free_1)))
              (step 0 (omega arith) (fails_src 0 refl (λ e. cc))))
            (step 1 (omega arith) (fails_src 0 refl (λ e. cc))))
          (step 0 (omega arith) (backs_off 0 refl)))
        (step 1 (omega arith) (backs_off 0 refl)),
    record { first = refl; other = refl; free_0 = refl; free_1 = refl },
    omega arith,
  )

  long_run :
      (n : ℕ)
      → (t : System) × (q : Reach (AnyStep (opposite loops)) start t) × Fresh t
        × (n ≤ steps (AnyStep (opposite loops)) q)
  long_run zero = (
    start,
    here,
    record { first = refl; other = refl; free_0 = refl; free_1 = refl },
    omega arith,
  )
  long_run (suc n) =
      let (t, q, f, le) = long_run n in
      let (u, more, g, e) = again start t q f in (u, more, g, omega (arith, le, e))

  -- With option `-d` two threads can go on for any number of steps, each taking its first mutex,
  -- failing at the second and backing off, and neither returns from a call.
  pub may_retry :
      (n : ℕ)
      → (t : System) × (q : Reach (AnyStep (opposite loops)) start t) × (n
          ≤ steps (AnyStep (opposite loops)) q)
        × (t.pc 0 ≡ top 0)
        × (t.pc 1 ≡ top 0)
  may_retry n = let (t, q, f, le) = long_run n in (t, q, le, f.first, f.other)
