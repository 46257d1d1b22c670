-- ===== src/Synchronizer/Tests.antt =====
-- main-signal-cv.c: a run in which `main` waits first.
use sysprg.Prelude.{◌≡◌, refl, ◌⊎◌, [], ◌∷◌, arith}
use sysprg.Prelude.Reach.{Reach, here, next}
use sysprg.Synchronizer.{
  first, last, m_end, w_end, System, start, Step, AnyStep, step, spurious, signal_init, create,
  main_lock, test_again, test_done, cond_wait, relock, main_unlock, print_last, print_first,
  worker_lock, set_done, cond_signal, worker_unlock,
}
use sysprg.Synchronizer.Order.{ordered_progress}

waiting_run : (s : System) × Reach Step start s × (s.printed ≡ last ∷ first ∷ [])
unfolding start
waiting_run = (
  _,
  next
      (next
        (next
          (next
            (next
              (next
                (next
                  (next
                    (next
                      (next
                        (next
                          (next (next (next here (signal_init refl)) (create refl))
                            (main_lock refl refl))
                          (test_again refl refl))
                        (cond_wait refl))
                      (print_first refl))
                    (worker_lock refl refl))
                  (set_done refl))
                (cond_signal refl))
              (worker_unlock refl))
            (relock refl refl))
          (test_done refl (λ e. omega arith)))
        (main_unlock refl))
      (print_last refl),
  refl,
)

-- `main` sleeps and wakes with no signal.
spurious_run : (s : System) × Reach AnyStep start s × (s.printed ≡ [])
unfolding start
spurious_run = (
  _,
  next
      (next
        (next
          (next (next (next here (step (signal_init refl))) (step (create refl)))
            (step (main_lock refl refl)))
          (step (test_again refl refl)))
        (step (cond_wait refl)))
      (spurious refl),
  refl,
)

ordered_progress_example :
    ((spurious_run.0.printed ≡ [])
      ⊎ ((spurious_run.0.printed ≡ first ∷ []) ⊎ (spurious_run.0.printed ≡ last ∷ first ∷ [])))
    × ((((spurious_run.0.m ≡ m_end) × (spurious_run.0.w ≡ w_end))
          × (spurious_run.0.printed ≡ last ∷ first ∷ []))
        ⊎ ((t : System) × Step spurious_run.0 t))
ordered_progress_example = ordered_progress spurious_run.0 spurious_run.1
