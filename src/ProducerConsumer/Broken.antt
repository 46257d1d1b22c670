-- ===== src/ProducerConsumer/Broken.antt =====
-- main-two-cvs-if.c: with an `if` before the wait a consumer can find the buffer empty.
use sysprg.Prelude.{
  ℕ, ◌<◌, ◌≡◌, ◌≢◌, refl, ◌∙◌, ap, Bool, true, false, [], arith, ℕ_discrete, update,
}
use sysprg.Prelude.Int.{ℤ}
use sysprg.Buffer.{Shared, ok, exits, do_fill, do_get, make_buffer}
use sysprg.Buffer.Queue.{
  Represents, do_fill_lem, do_get_lem, do_get-empty, make_buffer-Represents, filled, taken,
}
use sysprg.ProducerConsumer.Invariant.{value-ne}
use sysprg.ProducerConsumer.{
  Config, System, Reach, Wakes, MayRun, value, first_pc, Pc, two_cvs_if, start, later, act,
  signal_one, signal_none, p_lock, p_test, p_fill, p_signal, p_unlock, p_wait, c_test, c_wait,
  c_woken, c_get, c_signal, p_take, p_room, p_put, p_release, c_take, c_empty, c_some, c_take_out,
  c_release, c_retake, p_signals, c_signals, fill_wakes, empty_wakes, empty_wakes_own,
  fill_wakes_own,
}

-- One producer, two consumers.
abbrev pub if_config : ℕ → ℕ → Config
if_config loops max = record {
  program = two_cvs_if;
  loops = loops;
  max = max;
  producers = 1;
  consumers = 2;
}

-- With two condition variables a consumer's signal is for a thread that waits for room.
abbrev is_p_wait : Pc → Bool
is_p_wait (p_wait _) = true
is_p_wait _ = false

get-Wakes :
    {cfg : Config} {p q r : Pc}
    → cfg.program.one_cv ≡ false
    → Wakes cfg p q r
    → (n : ℕ) (v : ℤ) → p ≡ c_signal n v
    → is_p_wait q ≡ true
get-Wakes e fill_wakes n v h = cc
get-Wakes e empty_wakes n v h = refl
get-Wakes e (fill_wakes_own _) n v h = cc
get-Wakes e (empty_wakes_own o) n v h = cc

module _ (loops max : ℕ) (some_loops : 0 < loops) (some_room : 0 < max) where
  abbrev cfg : Config
  cfg = if_config loops max

  not_main : (pc : ℕ → Pc) (id : ℕ) → id < 3 → MayRun cfg pc id
  not_main pc id h e = absurd (omega arith)

  abbrev start_buffer : Shared
  start_buffer = make_buffer max

  -- The places when consumer 2 signals.
  nobody_waits :
      (v : ℤ) (j : ℕ)
      → ¬ (
          is_p_wait (
            update
              (update
                (update
                  (update
                    (update
                      (update
                        (update
                          (update
                            (update
                              (update (update (first_pc cfg) 1 (c_test 0)) 1 (c_wait 0))
                              0
                              (p_test 0))
                            0
                            (p_fill 0))
                          0
                          (p_signal 0))
                        1
                        (c_woken 0))
                      0
                      (p_unlock 0))
                    0
                    (p_lock 1))
                  2
                  (c_test 0))
                2
                (c_get 0))
              2
              (c_signal 0 v)
              j)
          ≡ true)
  nobody_waits v j h = ground arith

  -- Consumer 1 waits; the producer fills a slot and wakes it; consumer 2 takes the value; consumer 1
  -- goes on to do_get.
  bad_run :
      (s t : Shared) (v : ℤ)
      → do_fill (value cfg 0 0) start_buffer ≡ ok s
      → s.num_full ≢ 0
      → do_get s ≡ ok (v, t)
      → (u : System) × Reach cfg u × (u.mem.shared ≡ t) × (u.pc 1 ≡ c_get 0)
  unfolding ℕ_discrete make_buffer
  bad_run s t v f ne g = (
    _,
    later
        (later
          (later
            (later
              (later
                (later
                  (later
                    (later
                      (later
                        (later
                          (later
                            (later
                              (later start
                                (act 1 (omega arith) (not_main _ 1 (omega arith)) (c_take refl)))
                              (act 1 (omega arith) (not_main _ 1 (omega arith)) (c_empty refl)))
                            (act 0 (omega arith) (not_main _ 0 (omega arith))
                              (p_take some_loops refl)))
                          (act 0 (omega arith) (not_main _ 0 (omega arith)) (p_room (omega arith))))
                        (act 0 (omega arith) (not_main _ 0 (omega arith)) (p_put f)))
                      (signal_one 0 1 p_signals fill_wakes))
                    (act 0 (omega arith) (not_main _ 0 (omega arith)) p_release))
                  (act 2 (omega arith) (not_main _ 2 (omega arith)) (c_take refl)))
                (act 2 (omega arith) (not_main _ 2 (omega arith)) (c_some ne)))
              (act 2 (omega arith) (not_main _ 2 (omega arith)) (c_take_out g)))
            (signal_none 2 c_signals (λ j q w. nobody_waits v j (get-Wakes refl w 0 v refl))))
          (act 2 (omega arith) (not_main _ 2 (omega arith)) c_release))
        (act 1 (omega arith) (not_main _ 1 (omega arith)) (c_retake refl)),
    refl,
    refl,
  )

  -- With one producer and two consumers main-two-cvs-if.c can end by the `ensure` of `do_get`,
  -- whatever the size of the buffer and the number of items: some interleaving leads to a state in
  -- which a consumer is about to call `do_get` and the buffer is empty.
  pub if_exits : (u : System) × Reach cfg u × (u.pc 1 ≡ c_get 0) × (do_get u.mem.shared ≡ exits)
  unfolding make_buffer
  if_exits =
      let (f, one) = do_fill_lem none_yet item some_room (value-ne cfg 0 0) in
      let (g, none_left) = do_get_lem one in
      let (u, r, e, p) = bad_run (filled none_yet item) (taken one) item f (omega arith) g in
      (u, r, p, ap do_get e ∙ do_get-empty none_left)
    where
      none_yet : Represents start_buffer []
      none_yet = make_buffer-Represents max some_room

      item : ℤ
      item = value cfg 0 0
