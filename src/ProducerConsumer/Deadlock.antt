-- ===== src/ProducerConsumer/Deadlock.antt =====
-- main-one-cv-while.c: with one condition variable a signal can wake the wrong thread, and all wait.
use sysprg.Prelude.{
  ℕ, zero, suc, ◌<◌, ◌≡◌, ◌≢◌, refl, Bool, true, false, [], arith, ℕ_discrete, update_self,
}
use sysprg.Prelude.Int.{ℤ}
use sysprg.Buffer.{Shared, ok, do_fill, do_get, make_buffer}
use sysprg.Buffer.Queue.{Represents, do_fill_lem, do_get_lem, make_buffer-Represents, filled, taken}
use sysprg.ProducerConsumer.Invariant.{value-ne}
use sysprg.ProducerConsumer.{
  Config, Mem, System, Reach, Step, Move, MayRun, value, Pc, one_cv_while, Rouses, Signals, start,
  later, act, signal_one, signal_none, p_lock, p_signal, p_wait, c_wait, c_signal, done, p_take,
  p_full, p_room, rouse, p_put, p_release, c_take, c_empty, c_some, c_take_out, c_release, c_retake,
  p_signals, c_signals, fill_wakes, empty_wakes_own,
}

-- A place from which a thread can move by itself, or signal.
abbrev runs : Pc → Bool
runs (p_wait _) = false
runs (c_wait _) = false
runs (done _) = false
runs _ = true

Move-runs : {cfg : Config} {id : ℕ} {m m' : Mem} {p p' : Pc} → Move cfg id m p m' p' → runs p ≡ true
Move-runs (p_take _ _) = refl
Move-runs _ = refl

abbrev signals : Pc → Bool
signals (p_signal _) = true
signals (c_signal _ _) = true
signals _ = false

Signals-signals : {p q : Pc} → Signals p q → signals p ≡ true
Signals-signals p_signals = refl
Signals-signals c_signals = refl

-- One producer, two consumers, a buffer of one slot.
abbrev pub one_cv_config : ℕ → Config
one_cv_config loops = record {
  program = one_cv_while;
  loops = loops;
  max = 1;
  producers = 1;
  consumers = 2;
}

module _ (loops : ℕ) (more_loops : 1 < loops) where
  abbrev cfg : Config
  cfg = one_cv_config loops

  not_main : (pc : ℕ → Pc) (id : ℕ) → id < 3 → MayRun cfg pc id
  not_main pc id h e = absurd (omega arith)

  some_loops : 0 < loops
  some_loops = omega arith

  abbrev start_buffer : Shared
  start_buffer = make_buffer 1

  module _ (u : System) (e0 : u.pc 0 ≡ p_wait 1) (e1 : u.pc 1 ≡ c_wait 1) (e2 : u.pc 2 ≡ c_wait 0)
      (e3 : u.pc 3 ≡ p_lock 0) (rest : (j : ℕ) → 3 < j → u.pc j ≡ done 0) where
    only_main : (j : ℕ) → runs (u.pc j) ≡ true → j ≡ 3
    only_main zero h = ground arith
    only_main (suc zero) h = ground arith
    only_main (suc (suc zero)) h = ground arith
    only_main (suc (suc (suc zero))) h = refl
    only_main (suc (suc (suc (suc j)))) h =
        ground (arith, rest (suc (suc (suc (suc j)))) (omega arith))

    no_signal : (j : ℕ) → signals (u.pc j) ≡ true → ⊥
    no_signal j h = ground (arith, only_main j)

    stuck-Step : {t : System} → Step cfg u t → (j : ℕ) × Rouses (u.pc j) (t.pc j)
    stuck-Step (act id le may mv) =
        let (i, e) = may (only_main id (Move-runs mv)) 0 (omega arith) in absurd (clash e)
      where
        clash : {i : ℕ} → u.pc 0 ≡ done i → ⊥
        clash e = cc
    stuck-Step (signal_one id j sg w) = absurd (no_signal id (Signals-signals sg))
    stuck-Step (signal_none id sg w) = absurd (no_signal id (Signals-signals sg))
    stuck-Step (rouse j r) = (j, rw (update_self u.pc j) r)

  -- Both consumers wait; the producer fills the slot, wakes consumer 1 and waits for room; consumer
  -- 1 takes the value and wakes consumer 2, not the producer; both consumers wait again.
  stuck_run :
      (s t : Shared)
      → do_fill (value cfg 0 0) start_buffer ≡ ok s
      → s.num_full ≡ 1
      → s.num_full ≢ 0
      → do_get s ≡ ok (value cfg 0 0, t)
      → t.num_full ≡ 0
      → (u : System) × Reach cfg u
        × (u.pc 0 ≡ p_wait 1)
        × (u.pc 1 ≡ c_wait 1)
        × (u.pc 2 ≡ c_wait 0)
        × (u.pc 3 ≡ p_lock 0)
        × ((j : ℕ) → 3 < j → u.pc j ≡ done 0)
  unfolding ℕ_discrete make_buffer
  stuck_run s t f full ne g none_left = (
    _,
    (later
        (later
          (later
            (later
              (later
                (later
                  (later
                    (later
                      (later
                        (later
                          (later
                            (later
                              (later
                                (later
                                  (later
                                    (later
                                      (later
                                        (later
                                          (later
                                            (later start (
                                              act 1 (omega arith) (not_main _ 1 (omega arith))
                                                (c_take refl)))
                                            (act 1 (omega arith) (not_main _ 1 (omega arith))
                                              (c_empty refl)))
                                          (act 2 (omega arith) (not_main _ 2 (omega arith))
                                            (c_take refl)))
                                        (act 2 (omega arith) (not_main _ 2 (omega arith))
                                          (c_empty refl)))
                                      (act 0 (omega arith) (not_main _ 0 (omega arith))
                                        (p_take some_loops refl)))
                                    (act 0 (omega arith) (not_main _ 0 (omega arith))
                                      (p_room (omega arith))))
                                  (act 0 (omega arith) (not_main _ 0 (omega arith)) (p_put f)))
                                (signal_one 0 1 p_signals fill_wakes))
                              (act 0 (omega arith) (not_main _ 0 (omega arith)) p_release))
                            (act 0 (omega arith) (not_main _ 0 (omega arith))
                              (p_take more_loops refl)))
                          (act 0 (omega arith) (not_main _ 0 (omega arith)) (p_full full)))
                        (act 1 (omega arith) (not_main _ 1 (omega arith)) (c_retake refl)))
                      (act 1 (omega arith) (not_main _ 1 (omega arith)) (c_some ne)))
                    (act 1 (omega arith) (not_main _ 1 (omega arith)) (c_take_out g)))
                  (signal_one 1 2 c_signals (empty_wakes_own refl)))
                (act 1 (omega arith) (not_main _ 1 (omega arith)) c_release))
              (act 2 (omega arith) (not_main _ 2 (omega arith)) (c_retake refl)))
            (act 2 (omega arith) (not_main _ 2 (omega arith)) (c_empty none_left)))
          (act 1 (omega arith) (not_main _ 1 (omega arith)) (c_take refl)))
        (act 1 (omega arith) (not_main _ 1 (omega arith)) (c_empty none_left))),
    refl,
    refl,
    refl,
    refl,
    λ j h. ground arith,
  )

  -- With one producer of at least two items, two consumers and a buffer of one slot,
  -- main-one-cv-while.c can come to a state in which the producer, after its first item, and both
  -- consumers, one after its first item, are blocked in Cond_wait, and `main` has not begun its loop,
  -- as it waits for the producer. Each step from there is one by which a waiter wakes with no signal.
  pub one_cv_deadlocks :
      (u : System) × Reach cfg u
      × (u.pc 0 ≡ p_wait 1)
      × (u.pc 1 ≡ c_wait 1)
      × (u.pc 2 ≡ c_wait 0)
      × (u.pc 3 ≡ p_lock 0)
      × ((t : System) → Step cfg u t → (j : ℕ) × Rouses (u.pc j) (t.pc j))
  unfolding make_buffer
  one_cv_deadlocks =
      let (f, one) = do_fill_lem none_yet item (omega arith) (value-ne cfg 0 0) in
      let (g, none_left) = do_get_lem one in
      let (u, r, e0, e1, e2, e3, rest) =
        stuck_run (filled none_yet item) (taken one) f refl (omega arith) g refl in
      (u, r, e0, e1, e2, e3, λ t st. stuck-Step u e0 e1 e2 e3 rest st)
    where
      none_yet : Represents start_buffer []
      none_yet = make_buffer-Represents 1 (omega arith)

      item : ℤ
      item = value cfg 0 0
