-- ===== src/Balance/Tests.antt =====
-- main-race.c: a run in which the worker is first.
use sysprg.Prelude.{◌≡◌, ◌≤◌, ◌⊎◌, refl}
use sysprg.Prelude.Reach.{Reach, here, next, steps}
use sysprg.Balance.{
  System, start, Step, create, main_lock, main_read, main_write, main_unlock, main_join,
  worker_lock, worker_read, worker_write, worker_unlock,
}
use sysprg.Balance.Total.{Ended, balance_total}

the_run : (s : System) × Reach Step start s × (s.balance ≡ 2)
the_run = (
  _,
  next
      (next
        (next
          (next
            (next
              (next
                (next
                  (next (next (next here (create refl)) (worker_lock refl refl)) (worker_read refl))
                  (worker_write 0 refl))
                (worker_unlock refl))
              (main_lock refl refl))
            (main_read refl))
          (main_write 1 refl))
        (main_unlock refl))
      (main_join refl refl),
  refl,
)

balance_total_example :
    (Ended the_run.0 ⊎ ((t : System) × Step the_run.0 t)) × (steps Step the_run.1 ≤ 10)
balance_total_example = balance_total the_run.0 the_run.1
