-- ===== src/ProducerConsumer/Tests.antt =====
-- One producer and one consumer over a buffer of one slot, run by hand to the places of interest.
use sysprg.Prelude.{
  ltb, if◌then◌else◌, ℕ, ◌≤◌, ◌<◌, ◌≡◌, refl, List, ◌++◌, length, suc, ◌+◌, ◌*◌, ap, ◌∙◌, ◌⊎◌,
  update, arith, ℕ_discrete,
}
use sysprg.Prelude.Int.{ℤ, pos}
use sysprg.Buffer.{Shared, ok, exits, do_fill, do_get, make_buffer, end_of_stream}
use sysprg.Buffer.Queue.{Represents}
use sysprg.ProducerConsumer.{
  Config, System, Reach, Step, MayRun, value, Pc, two_cvs_while, start, later, act, signal_one,
  p_fill, c_get, p_wait, c_wait, p_lock, p_take, p_room, p_put, p_release, c_take, c_empty, c_some,
  c_retake, p_signals, fill_wakes, Rouses, Mem, Move, Signals, Wakes, done, p_stop, p_full,
  p_retake, c_release, c_take_out, empty_wakes, signal_none, c_signals,
}
use sysprg.ProducerConsumer.Progress.{Ended, two_cvs_progress}
use sysprg.ProducerConsumer.Tally.{pick, row}
use sysprg.ProducerConsumer.Running.{Goes, empty_heard}
use sysprg.ProducerConsumer.Streams.{occurs}
use sysprg.Prelude.Sums.{sum}
use sysprg.ProducerConsumer.Delivered.{two_cvs_delivers, result}
use sysprg.ProducerConsumer.Termination.{Run, begins, works, Run-Reach, two_cvs_terminates}
use sysprg.ProducerConsumer.Safety.{mutual_exclusion, fill_returns, get_returns, first_in_first_out}
use sysprg.ProducerConsumer.Broken.{if_config, if_exits}
use sysprg.ProducerConsumer.Deadlock.{one_cv_config, one_cv_deadlocks}

abbrev cfg : Config
cfg = record { program = two_cvs_while; loops = 1; max = 1; producers = 1; consumers = 1 }

not_main : (pc : ℕ → Pc) (id : ℕ) → id < 2 → MayRun cfg pc id
not_main pc id h e = absurd (omega arith)

-- The consumer waits, and the producer is about to fill.
filling : (u : System) × Reach cfg u × (u.pc 0 ≡ p_fill 0)
unfolding ℕ_discrete make_buffer
filling = (
  _,
  later
      (later
        (later (later start (act 1 (omega arith) (not_main _ 1 (omega arith)) (c_take refl)))
          (act 1 (omega arith) (not_main _ 1 (omega arith)) (c_empty refl)))
        (act 0 (omega arith) (not_main _ 0 (omega arith)) (p_take (omega arith) refl)))
      (act 0 (omega arith) (not_main _ 0 (omega arith)) (p_room (omega arith))),
  refl,
)

-- The producer has filled and woken it, and it is about to take the value.
getting : (u : System) × Reach cfg u × (u.pc 1 ≡ c_get 0)
unfolding ℕ_discrete make_buffer do_fill filling
getting = (
  _,
  later
      (later
        (later
          (later (later filling.1 (act 0 (omega arith) (not_main _ 0 (omega arith)) (p_put refl)))
            (signal_one 0 1 p_signals fill_wakes))
          (act 0 (omega arith) (not_main _ 0 (omega arith)) p_release))
        (act 1 (omega arith) (not_main _ 1 (omega arith)) (c_retake refl)))
      (act 1 (omega arith) (not_main _ 1 (omega arith)) (c_some (omega arith))),
  refl,
)

mutual_exclusion_example : ◌≡◌ {A = ℕ} 0 0
unfolding filling ℕ_discrete
mutual_exclusion_example = mutual_exclusion cfg refl (omega arith) filling.1 0 0 refl refl

fill_returns_example : (t : Shared) × (do_fill (value cfg 0 0) filling.0.mem.shared ≡ ok t)
fill_returns_example = fill_returns cfg refl (omega arith) filling.1 0 0 filling.2

get_returns_example : (v : ℤ) × (t : Shared) × (do_get getting.0.mem.shared ≡ ok (v, t))
get_returns_example = get_returns cfg refl (omega arith) getting.1 1 0 getting.2

first_in_first_out_example :
    (queue : List ℤ) × Represents getting.0.mem.shared queue
    × (getting.0.mem.put ≡ getting.0.mem.got ++ queue)
    × (length queue ≤ 1)
first_in_first_out_example = first_in_first_out cfg refl (omega arith) getting.1

if_exits_example :
    (u : System) × Reach (if_config 3 5) u × (u.pc 1 ≡ c_get 0) × (do_get u.mem.shared ≡ exits)
if_exits_example = if_exits 3 5 (omega arith) (omega arith)

one_cv_deadlocks_example :
    (u : System) × Reach (one_cv_config 2) u
    × (u.pc 0 ≡ p_wait 1)
    × (u.pc 1 ≡ c_wait 1)
    × (u.pc 2 ≡ c_wait 0)
    × (u.pc 3 ≡ p_lock 0)
    × ((t : System) → Step (one_cv_config 2) u t → (j : ℕ) × Rouses (u.pc j) (t.pc j))
one_cv_deadlocks_example = one_cv_deadlocks 2 (omega arith)

two_cvs_progress_example : Ended cfg filling.0.pc ⊎ Goes cfg filling.0
two_cvs_progress_example = two_cvs_progress cfg refl refl (omega arith) (omega arith) filling.1

-- A run to the end, in pieces.
by_thread :
    {k w : ℕ} {s : System}
    → Run cfg k w s
    → (id : ℕ) {m : Mem} {p : Pc} → id < 2
    → Move cfg id s.mem (s.pc id) m p
    → Run cfg (suc k) w (record { mem = m; pc = update s.pc id p })
by_thread {s} r id lt mv = works r (act id (omega arith) (not_main s.pc id lt) mv) refl

by_main :
    {k w : ℕ} {s : System}
    → Run cfg k w s
    → (i : ℕ) → s.pc 0 ≡ done i
    → {m : Mem} {p : Pc} → Move cfg 2 s.mem (s.pc 2) m p
    → Run cfg (suc k) w (record { mem = m; pc = update s.pc 2 p })
by_main {s} r i e mv =
    works r (act 2 (omega arith) (λ f j lt. (i, ap s.pc (zero_is j lt) ∙ e)) mv) refl
  where
    zero_is : (j : ℕ) → j < 1 → j ≡ 0
    zero_is j lt = omega arith

by_signal :
    {k w : ℕ} {s : System}
    → Run cfg k w s
    → (id j : ℕ) {p q : Pc} → Signals (s.pc id) p
    → Wakes cfg (s.pc id) (s.pc j) q
    → Run cfg (suc k) w (record { mem = s.mem; pc = update (update s.pc j q) id p })
by_signal r id j sg w = works r (signal_one id j sg w) refl

first_part : (u : System) × Run cfg 10 0 u
unfolding ℕ_discrete make_buffer do_fill do_get
first_part =
    let a = by_thread begins 1 (omega arith) (c_take refl) in
    let a = by_thread a 1 (omega arith) (c_empty refl) in
    let a = by_thread a 0 (omega arith) (p_take (omega arith) refl) in
    let a = by_thread a 0 (omega arith) (p_room (omega arith)) in
    let a = by_thread a 0 (omega arith) (p_put refl) in
    let a = by_signal a 0 1 p_signals fill_wakes in
    let a = by_thread a 0 (omega arith) p_release in
    let a = by_thread a 0 (omega arith) (p_stop (omega arith)) in
    let a = by_main a 1 refl (p_take (omega arith) refl) in
    let a = by_main a 1 refl (p_full refl) in (_, a)

second_part : (u : System) × Run cfg 23 0 u
unfolding ℕ_discrete make_buffer do_fill do_get first_part
second_part =
    let a = by_thread first_part.1 1 (omega arith) (c_retake refl) in
    let a = by_thread a 1 (omega arith) (c_some (omega arith)) in
    let a = by_thread a 1 (omega arith) (c_take_out refl) in
    let a = by_signal a 1 2 c_signals empty_wakes in
    let a = by_thread a 1 (omega arith) c_release in
    let a = by_thread a 1 (omega arith) (c_take refl) in
    let a = by_thread a 1 (omega arith) (c_empty refl) in
    let a = by_main a 1 refl (p_retake refl) in
    let a = by_main a 1 refl (p_room (omega arith)) in
    let a = by_main a 1 refl (p_put refl) in
    let a = by_signal a 2 1 p_signals fill_wakes in
    let a = by_main a 1 refl p_release in let a = by_main a 1 refl (p_stop (omega arith)) in (_, a)

finished : (u : System) × Run cfg 28 0 u × Ended cfg u.pc
unfolding ℕ_discrete make_buffer do_fill do_get first_part second_part
finished =
    let a = by_thread second_part.1 1 (omega arith) (c_retake refl) in
    let a = by_thread a 1 (omega arith) (c_some (omega arith)) in
    let a = by_thread a 1 (omega arith) (c_take_out refl) in
    let a =
      works a (signal_none 1 c_signals (λ j q w. ground (arith, empty_heard cfg refl w))) refl in
    let a = by_thread a 1 (omega arith) c_release in (_, a, λ j le. (1, ground (arith, le)))

two_cvs_delivers_example :
    (finished.0.mem.shared.num_full ≡ 0)
    × ((n : ℕ) → occurs (pos n) finished.0.mem.got ≡ (if ltb n (1 * 1) then 1 else 0))
    × ((j : ℕ) → pick cfg j finished.0.mem.got ≡ row cfg j (if ltb j 1 then 1 else 0))
    × (occurs end_of_stream finished.0.mem.got ≡ 1)
    × (length finished.0.mem.got ≡ 1 * 1 + 1)
    × (sum 1 (λ k. result (finished.0.pc (1 + k))) ≡ 1 * 1)
two_cvs_delivers_example =
    two_cvs_delivers cfg refl refl (omega arith) (omega arith) (Run-Reach cfg finished.1) finished.2

two_cvs_terminates_example : 28 ≤ 16 * (1 * 1) + 7 * 1 + 23 * 1 + 7 + 2 * 0
two_cvs_terminates_example = two_cvs_terminates cfg refl refl (omega arith) finished.1
