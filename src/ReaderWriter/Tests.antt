-- ===== src/ReaderWriter/Tests.antt =====
-- One reader and one writer, run by hand.
use sysprg.Prelude.{ℕ, ◌≡◌, refl, true, false, arith, ℕ_discrete}
use sysprg.ReaderWriter.{
  reader_writer, Config, System, Steps, init, here, later, act, rwlock_init, r_give, reading,
  writing, take_lock, count, is_first, grab, post_lock, read, retake_lock, uncount, is_last,
  take_write,
}
use sysprg.ReaderWriter.Invariant.{writes, admitted}
use sysprg.ReaderWriter.Exclusion.{exclusion, last_reader_blocks}

abbrev cfg : Config
cfg = reader_writer 1 1 1

write_run : (s : System) × Steps cfg (init cfg) s × (s.pc 1 ≡ writing 0)
unfolding ℕ_discrete rwlock_init
write_run = (_, later here (act 1 (take_write (omega arith))), refl)

read_run : (s : System) × Steps cfg (init cfg) s × (s.pc 0 ≡ reading 0)
unfolding ℕ_discrete rwlock_init
read_run = (
  _,
  later
      (later
        (later (later (later here (act 0 (take_lock (omega arith)))) (act 0 count))
          (act 0 (is_first refl)))
        (act 0 (grab (omega arith))))
      (act 0 post_lock),
  refl,
)

leave_run : (s : System) × Steps cfg (init cfg) s × (s.pc 0 ≡ r_give 0)
unfolding ℕ_discrete rwlock_init read_run
leave_run = (
  _,
  later
      (later (later (later read_run.1 (act 0 read)) (act 0 (retake_lock (omega arith))))
        (act 0 uncount))
      (act 0 (is_last refl)),
  refl,
)

exclusion_example :
    ((writes (write_run.0.pc 0) ≡ true) → ◌≡◌ {A = ℕ} 1 0) × (admitted (write_run.0.pc 0) ≡ false)
unfolding write_run ℕ_discrete
exclusion_example = exclusion cfg write_run.1 1 0 refl

last_reader_blocks_example : (leave_run.0.pc 0 ≡ r_give 0) × (leave_run.0.mem.lock ≡ 0)
last_reader_blocks_example = last_reader_blocks cfg leave_run.1 0 0 leave_run.2 here
