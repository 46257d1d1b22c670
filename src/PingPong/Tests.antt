-- ===== src/PingPong/Tests.antt =====
-- cntxtsw.c with one round.
use sysprg.Prelude.{◌≡◌, refl, ◌⊎◌, arith}
use sysprg.Prelude.Reach.{Reach, here, next}
use sysprg.PingPong.{
  p_end, c_end, System, start, Step, parent_close_1, parent_close_2, parent_say, parent_write,
  parent_read, parent_said, child_close_1, child_close_2, child_read, child_said, child_say,
  child_write,
}
use sysprg.PingPong.Turns.{rounds}
use sysprg.PingPong.Ending.{rounds_printed}

one_round : (s : System) × Reach (Step 1) (start 1) s × ((s.p ≡ p_end) × (s.c ≡ c_end))
one_round = (
  _,
  next
      (next
        (next
          (next
            (next
              (next
                (next
                  (next
                    (next
                      (next (next (next here (parent_close_1 0 refl)) (parent_close_2 0 refl))
                        (parent_say 0 refl))
                      (parent_write 0 refl))
                    (child_close_1 0 refl))
                  (child_close_2 0 refl))
                (child_read 0 refl (omega arith)))
              (child_said 0 refl))
            (child_say 0 refl))
          (child_write 0 refl))
        (parent_read 0 refl (omega arith)))
      (parent_said 0 refl),
  (refl, refl),
)

rounds_printed_example :
    (((one_round.0.p ≡ p_end) × (one_round.0.c ≡ c_end)) ⊎ ((t : System) × Step 1 one_round.0 t))
    × (((one_round.0.p ≡ p_end) × (one_round.0.c ≡ c_end))
        → (one_round.0.printed ≡ rounds 1) × (one_round.0.pipe_1 ≡ 0) × (one_round.0.pipe_2 ≡ 0))
rounds_printed_example = rounds_printed 1 one_round.0 one_round.1
