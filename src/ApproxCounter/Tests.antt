-- ===== src/ApproxCounter/Tests.antt =====
-- The approximate counter with threshold 5.
use sysprg.Prelude.{◌+◌, ◌*◌, ◌≤◌, ◌≡◌, refl, [], ◌∷◌, arith, ℕ_discrete}
use sysprg.ApproxCounter.{init, update_each, get, numcpus}
use sysprg.Prelude.Reach.{Reach, here, next}
use sysprg.ApproxCounter.Calls.{System, start, Step, take_llock, add, reached, take_glock, transfer}
use sysprg.ApproxCounter.Overlap.{get_bounds, pendings, in_flights}
use sysprg.Prelude.Sums.{sum}

-- Threads 0 and 8 share a CPU, so 3 and 4 are transferred together.
shared_cpu : get (update_each (init 5) ((0, 3) ∷ (8, 4) ∷ (1, 2) ∷ [])) ≡ 7
unfolding get init update_each ℕ_discrete
shared_cpu = refl

-- Thread 9 moves 6 to the global count, while thread 2 has added 3 and is at its test.
overlapping : (s : System) × Reach Step (start 5) s × (get s.counter ≡ 6)
unfolding start init get ℕ_discrete
overlapping = (
  _,
  next
      (next
        (next
          (next
            (next (next (next here (take_llock 1 9 6 refl refl)) (add 1 6 refl))
              (reached 1 6 refl (omega arith)))
            (take_glock 1 6 refl refl))
          (take_llock 2 2 3 refl refl))
        (add 2 3 refl))
      (transfer 1 6 refl),
  refl,
)

get_bounds_example :
    (get overlapping.0.counter + sum numcpus (pendings overlapping.0) ≡ overlapping.0.total)
    × (get overlapping.0.counter ≤ overlapping.0.total)
    × (overlapping.0.total + numcpus
        ≤ get overlapping.0.counter + numcpus * 5 + sum numcpus (in_flights overlapping.0))
get_bounds_example = get_bounds 5 overlapping.0 (omega arith) overlapping.1
