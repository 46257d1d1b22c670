-- ===== src/NoLock/Tests.antt =====
-- vector-nolock.c: one thread that calls `vector_add` once.
use sysprg.Prelude.{ℕ, zero, suc, ◌+◌, ◌≡◌, refl, true, false, get_or, arith, update, update_self}
use sysprg.Prelude.Reach.{Reach, here, next}
use sysprg.VectorAdd.{vector_size, Config}
use sysprg.NoLock.{at, adding, System, start, dst, src, Step, reads, adds, returns}
use sysprg.NoLock.Totals.{Ended, nolock_totals}

abbrev one_call : Config
one_call = record { loops = 1; num_threads = 1; cause_deadlock = false; enable_parallelism = true }

-- Slot by slot, and the return.
slots :
    (m i : ℕ) (s : System)
    → Reach (Step one_call) start s
    → s.pc 0 ≡ at 0 i
    → i + m ≡ vector_size
    → (t : System) × Reach (Step one_call) start t × (t.pc 0 ≡ at 1 0)
slots zero i s r e h =
    let last : i ≡ vector_size = omega arith in
    (_, next r (returns 0 0 (omega arith) (rw last at e)), update_self s.pc 0)
slots (suc m) i s r e h =
    slots m (i + 1) _
      (next (next r (reads 0 0 i (omega arith) e (omega arith) (omega arith)))
        (adds 0 0 i _ (omega arith) (update_self s.pc 0)))
      (update_self (update s.pc 0 (adding 0 i (get_or (s.values (src one_call 0)) i 0))) 0)
      (omega arith)

the_run : (t : System) × Reach (Step one_call) start t × (t.pc 0 ≡ at 1 0)
the_run = slots 100 0 start here refl refl

the_run-Ended : Ended one_call refl the_run.0
the_run-Ended zero lt = the_run.2
the_run-Ended (suc j) lt = absurd (omega arith)

nolock_totals_example : get_or (the_run.0.values (dst one_call 0)) 7 0 ≡ 1
nolock_totals_example =
    nolock_totals one_call refl the_run.0 (omega arith) the_run.1 the_run-Ended 0 7 (omega arith)
      (omega arith)
