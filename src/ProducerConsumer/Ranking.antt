-- ===== src/ProducerConsumer/Ranking.antt =====
-- main-two-cvs-while.c: how many steps are left. A signal pays for the waiter that it wakes, and a
-- value that is taken out pays for the consumer's next round.
use sysprg.Prelude.{
  ℕ, ◌+◌, ◌-◌, ◌*◌, ◌≤◌, ◌<◌, ◌≡◌, refl, ap, ◌⊎◌, true, [], ◌∷◌, length, length-append, arith,
}
use sysprg.Prelude.Sums.{sum, sum_all, sum_bounded}
use sysprg.ProducerConsumer.{
  Config, Mem, System, Move, rounds, main_id, Pc, Signals, Rouses, p_lock, p_test, p_wait, p_woken,
  p_fill, p_signal, p_unlock, c_lock, c_test, c_wait, c_woken, c_get, c_signal, c_unlock, done,
  p_release, c_take_out, p_signals, c_signals, p_rouses, c_rouses,
}
use sysprg.ProducerConsumer.Invariant.{Stored}
use sysprg.ProducerConsumer.Credits.{threads}
use sysprg.ProducerConsumer.Credits.Moves.{get_counts}
use sysprg.ProducerConsumer.Streams.{Within-filled, IsTaker, Within, filled, weigh-length, Streams}
use sysprg.ProducerConsumer.Tally.{sent, Tally}

-- The steps that a thread has before it, in a loop of `n` rounds; a consumer's next rounds are not
-- counted here.
abbrev pub rank : ℕ → Pc → ℕ
rank n (p_lock i) = 8 * (n - i) + 7
rank n (p_test i) = 8 * (n - i) + 6
rank n (p_wait i) = 8 * (n - i) + 5
rank n (p_woken i) = 8 * (n - i) + 7
rank n (p_fill i) = 8 * (n - i) + 5
rank n (p_signal i) = 8 * (n - i) + 4
rank n (p_unlock i) = 8 * (n - i) + 1
rank n (c_lock _) = 7
rank n (c_test _) = 6
rank n (c_wait _) = 5
rank n (c_woken _) = 7
rank n (c_get _) = 5
rank n (c_signal _ _) = 12
rank n (c_unlock _ _) = 9
rank n (done _) = 0

pub Signals-rank : {p q : Pc} (n : ℕ) → Signals p q → rank n q + 3 ≡ rank n p
Signals-rank n p_signals = omega arith
Signals-rank n c_signals = refl

pub Rouses-rank : {p q : Pc} (n : ℕ) → Rouses p q → rank n q ≡ rank n p + 2
Rouses-rank n p_rouses = omega arith
Rouses-rank n c_rouses = refl

module _ (cfg : Config) where
  -- All values that go through the buffer.
  abbrev pub all_values : ℕ
  all_values = cfg.producers * cfg.loops + cfg.consumers

  abbrev pub ranks : (ℕ → Pc) → ℕ
  ranks pc = sum (threads cfg) (λ id. rank (rounds cfg id) (pc id))

  abbrev pub measure : System → ℕ
  measure s = 8 * (all_values - length s.mem.got) + ranks s.pc

  -- A step of one thread, in the measure.
  pub Move-rank :
      {id : ℕ} {m m' : Mem} {p p' : Pc}
      → Move cfg id m p m' p'
      → cfg.program.retests ≡ true
      → Stored cfg.max m
      → length m.put ≤ all_values
      → Within (rounds cfg id) p ⊎ IsTaker p
      → 8 * (all_values - length m'.got) + rank (rounds cfg id) p'
        < 8 * (all_values - length m.got) + rank (rounds cfg id) p
  Move-rank (p_release {i}) ws st fits h = ground (arith, h)
  Move-rank {m} (c_take_out {v} {s} f) ws st fits h = omega (
    arith,
    length-append m.got (v ∷ []),
    get_counts m v s st.queue st.represents f,
    st.represents.full,
    ap length st.order,
    length-append m.got st.queue,
  )
  Move-rank mv ws st fits h = ground arith

  pub put_fits : {s : System} → Streams cfg s → Tally cfg s → length s.mem.put ≤ all_values
  put_fits {s} streams tally = omega (
    arith,
    weigh-length s.mem.put,
    tally.weighs (λ v. 1),
    sum_all (filled (s.pc (main_id cfg))) (λ i. 1) (λ i lt. refl),
    Within-filled _ (s.pc (main_id cfg)) streams.last,
    sum_bounded cfg.producers cfg.loops (λ j. sent cfg (λ v. 1) j (filled (s.pc j)))
        (λ j lt. omega (
          arith,
          sum_all (filled (s.pc j)) (λ i. 1) (λ i l. refl),
          Within-filled _ (s.pc j) (tally.within j lt),
        )),
  )
