-- ===== src/TwoMutexes/Deadlock.antt =====
-- main-deadlock.c and main-deadlock-global.c: where the threads wait for each other.
use sysprg.Prelude.{ℕ, zero, suc, refl, inl, inr, arith, ℕ_discrete, ltb_ge}
use sysprg.VectorAdd.{System, Steps}
use sysprg.VectorAdd.Owners.{no_mutex, Steps-Inv, none_held-Inv}
use sysprg.VectorAdd.Guarded.{Careful, Careful-Follows, some-Step}
use sysprg.VectorAdd.Meeting.{Stuck, Starts, meet}
use sysprg.TwoMutexes.{worker, worker_global, start, g}

starts-Careful : (id : ℕ) → Careful g no_mutex ((start worker_global).rest id)
unfolding start worker_global Careful ℕ_discrete
starts-Careful zero = (
  refl,
  inl (λ x. refl),
  (refl, inr refl, (refl, inr refl, (refl, (refl, (refl, λ l. ground arith))))),
)
starts-Careful (suc zero) = (
  refl,
  inl (λ x. refl),
  (refl, inr refl, (refl, inr refl, (refl, (refl, (refl, λ l. ground arith))))),
)
starts-Careful (suc (suc id)) = rw (ltb_ge (suc (suc id)) 2 (omega arith)) (λ l. refl)

global-runs : (s : System) → Steps (start worker_global) s → ¬ Stuck s
unfolding start
global-runs s r ((id, ne), none_left) =
    let inv =
      none_held-Inv (Careful g) (Careful-Follows g) (start worker_global) (λ l. refl)
        starts-Careful in
    let (t, st) =
      some-Step g (Steps-Inv (Careful g) (Careful-Follows g) r inv) id (s.rest id) refl ne in
    none_left t st

worker-Starts : (id : ℕ) → Starts ((start worker).rest id)
unfolding start worker
worker-Starts zero = inr (0, _, refl, inl refl)
worker-Starts (suc zero) = inr (1, _, refl, inr refl)
worker-Starts (suc (suc id)) = rw (ltb_ge (suc (suc id)) 2 (omega arith)) (inl refl)

-- main-deadlock.c can come to a state in which a thread has not ended and no step is possible;
-- main-deadlock-global.c cannot.
pub worker_deadlocks :
    ((s : System) × Steps (start worker) s × Stuck s)
    × ((s : System) → Steps (start worker_global) s → ¬ Stuck s)
unfolding start worker ℕ_discrete
worker_deadlocks = (meet (start worker) _ _ refl refl worker-Starts (λ l. refl), global-runs)
