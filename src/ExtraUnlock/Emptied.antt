-- ===== src/ExtraUnlock/Emptied.antt =====
-- main-two-cvs-while-extra-unlock.c: a consumer can find the buffer empty.
use sysprg.Prelude.{ℕ, ◌+◌, ◌*◌, ◌<◌, ◌≡◌, ◌≢◌, refl, ◌∙◌, ap, [], arith, ℕ_discrete}
use sysprg.Prelude.Int.{ℤ, pos}
use sysprg.Prelude.Reach.{Reach, here, next}
use sysprg.Buffer.{Shared, ok, exits, do_fill, do_get, make_buffer}
use sysprg.Buffer.Queue.{
  Represents, do_fill_lem, do_get_lem, do_get-empty, make_buffer-Represents, filled, taken,
}
use sysprg.ExtraUnlock.{
  Config, System, Step, start, act, c_get, p_take, p_room, p_release, p_put, c_take, c_some,
  c_release, c_take_out,
}

-- One producer, two consumers.
abbrev pub one_two : ℕ → ℕ → Config
one_two loops max = record { loops = loops; max = max; producers = 1; consumers = 2 }

module _ (loops max : ℕ) (some_loops : 0 < loops) (some_room : 0 < max) where
  abbrev item : ℤ
  item = pos (0 * loops + 0)

  -- The producer fills a slot; both consumers see that there is one and free the mutex; the first
  -- takes it.
  both_see :
      (s t : Shared) (v : ℤ)
      → do_fill item (make_buffer max) ≡ ok s
      → s.num_full ≢ 0
      → do_get s ≡ ok (v, t)
      → (u : System) × Reach (Step (one_two loops max)) (start (one_two loops max)) u
        × (u.mem.shared ≡ t)
        × (u.pc 2 ≡ c_get 0)
  unfolding ℕ_discrete make_buffer
  both_see s t v f ne g = (
    _,
    next
        (next
          (next
            (next
              (next
                (next
                  (next
                    (next
                      (next
                        (next (next here (act 0 (omega arith) (p_take some_loops refl)))
                          (act 0 (omega arith) (p_room (omega arith))))
                        (act 0 (omega arith) p_release))
                      (act 0 (omega arith) (p_put f)))
                    (act 1 (omega arith) (c_take refl)))
                  (act 1 (omega arith) (c_some ne)))
                (act 1 (omega arith) c_release))
              (act 2 (omega arith) (c_take refl)))
            (act 2 (omega arith) (c_some ne)))
          (act 2 (omega arith) c_release))
        (act 1 (omega arith) (c_take_out g)),
    refl,
    refl,
  )

  -- With one producer and two consumers main-two-cvs-while-extra-unlock.c can end by the `ensure` of
  -- `do_get`, whatever the size of the buffer and the number of items: some interleaving leads to a
  -- state in which a consumer that has seen a full slot is about to call `do_get`, and the buffer is
  -- empty by then.
  pub consumer_exits :
      (u : System) × Reach (Step (one_two loops max)) (start (one_two loops max)) u
      × (u.pc 2 ≡ c_get 0)
      × (do_get u.mem.shared ≡ exits)
  unfolding make_buffer
  consumer_exits =
      let (f, one) = do_fill_lem none_yet item some_room (λ e. cc) in
      let (g, none_left) = do_get_lem one in
      let (u, r, e, p) = both_see (filled none_yet item) (taken one) item f (omega arith) g in
      (u, r, p, ap do_get e ∙ do_get-empty none_left)
    where
      none_yet : Represents (make_buffer max) []
      none_yet = make_buffer-Represents max some_room
