-- ===== src/ExtraUnlock.antt =====
-- concurrency/threads-cv/main-two-cvs-while-extra-unlock.c: `producer` and `consumer`, which free the
-- mutex before do_fill and do_get and take it again for the signal.
--
-- do_fill and do_get are taken whole. In the program calls of two threads can overlap besides, so that
-- every run here is one of the program, but not the other way round. `main`, which adds
-- END_OF_STREAM when the producers have ended, is left out. Mutex and condition variables behave as in
-- ProducerConsumer.
pub mod Emptied
mod Tests
use sysprg.Prelude.{
  ℕ, zero, suc, ◌+◌, ◌*◌, ◌<◌, ◌≤◌, ◌≡◌, ◌≢◌, Option, none, some, ltb, if◌then◌else◌, update,
}
use sysprg.Prelude.Int.{ℤ, pos}
use sysprg.Buffer.{Shared, ok, do_fill, do_get, make_buffer, end_of_stream, eq_int}

-- The command line: `-l`, `-m`, `-p`, `-c`.
pub record Config : Type 0 where
  pub loops : ℕ
  pub max : ℕ
  pub producers : ℕ
  pub consumers : ℕ

-- Where a thread stands, with the number of the rounds that are done.
pub data Pc : Type 0 where
  p_lock : ℕ → Pc  -- before the first Mutex_lock
  p_test : ℕ → Pc  -- at the test of `num_full == max`
  p_wait : ℕ → Pc  -- blocked in Cond_wait
  p_woken : ℕ → Pc  -- woken, before it has the mutex again
  p_free : ℕ → Pc  -- before the first Mutex_unlock
  p_fill : ℕ → Pc  -- before do_fill
  p_relock : ℕ → Pc  -- before the second Mutex_lock
  p_signal : ℕ → Pc  -- before Cond_signal
  p_unlock : ℕ → Pc  -- before the second Mutex_unlock
  c_lock : ℕ → Pc
  c_test : ℕ → Pc
  c_wait : ℕ → Pc
  c_woken : ℕ → Pc
  c_free : ℕ → Pc
  c_get : ℕ → Pc
  c_relock : ℕ → ℤ → Pc  -- with `tmp`
  c_signal : ℕ → ℤ → Pc
  c_unlock : ℕ → ℤ → Pc
  done : ℕ → Pc  -- has returned

pub record Mem : Type 0 where
  pub lock : Option ℕ
  pub shared : Shared

pub record System : Type 0 where
  pub mem : Mem
  pub pc : ℕ → Pc

module _ (cfg : Config) where
  -- The end of a consumer's round: `while (tmp != END_OF_STREAM)`.
  abbrev pub next_round : ℕ → ℤ → Pc
  next_round n tmp = if eq_int tmp end_of_stream then done n else c_lock (suc n)

  -- The steps of thread `id` that move no other thread.
  pub data Move (id : ℕ) (m : Mem) : Pc → Mem → Pc → Type 0 where
    p_take :
        {i : ℕ}
        → i < cfg.loops
        → m.lock ≡ none
        → Move id m (p_lock i) (record m { lock = some id }) (p_test i)
    p_stop : {i : ℕ} → cfg.loops ≤ i → Move id m (p_lock i) m (done i)
    p_full :
        {i : ℕ}
        → m.shared.num_full ≡ cfg.max
        → Move id m (p_test i) (record m { lock = none }) (p_wait i)
    p_rouse : {i : ℕ} → Move id m (p_wait i) m (p_woken i)  -- with no signal
    p_retake :
        {i : ℕ} → m.lock ≡ none → Move id m (p_woken i) (record m { lock = some id }) (p_test i)
    p_room : {i : ℕ} → m.shared.num_full ≢ cfg.max → Move id m (p_test i) m (p_free i)
    p_release : {i : ℕ} → Move id m (p_free i) (record m { lock = none }) (p_fill i)
    p_put :
        {i : ℕ} {s : Shared}
        → do_fill (pos (id * cfg.loops + i)) m.shared ≡ ok s
        → Move id m (p_fill i) (record m { shared = s }) (p_relock i)
    p_take_again :
        {i : ℕ} → m.lock ≡ none → Move id m (p_relock i) (record m { lock = some id }) (p_signal i)
    p_release_again : {i : ℕ} → Move id m (p_unlock i) (record m { lock = none }) (p_lock (suc i))
    c_take : {n : ℕ} → m.lock ≡ none → Move id m (c_lock n) (record m { lock = some id }) (c_test n)
    c_empty :
        {n : ℕ} → m.shared.num_full ≡ 0 → Move id m (c_test n) (record m { lock = none }) (c_wait n)
    c_rouse : {n : ℕ} → Move id m (c_wait n) m (c_woken n)
    c_retake :
        {n : ℕ} → m.lock ≡ none → Move id m (c_woken n) (record m { lock = some id }) (c_test n)
    c_some : {n : ℕ} → m.shared.num_full ≢ 0 → Move id m (c_test n) m (c_free n)
    c_release : {n : ℕ} → Move id m (c_free n) (record m { lock = none }) (c_get n)
    c_take_out :
        {n : ℕ} {v : ℤ} {s : Shared}
        → do_get m.shared ≡ ok (v, s)
        → Move id m (c_get n) (record m { shared = s }) (c_relock n v)
    c_take_again :
        {n : ℕ} {v : ℤ}
        → m.lock ≡ none
        → Move id m (c_relock n v) (record m { lock = some id }) (c_signal n v)
    c_release_again :
        {n : ℕ} {v : ℤ} → Move id m (c_unlock n v) (record m { lock = none }) (next_round n v)

  -- Cond_signal, after which its thread is here.
  pub data Signals : Pc → Pc → Type 0 where
    p_signals : {i : ℕ} → Signals (p_signal i) (p_unlock i)
    c_signals : {n : ℕ} {v : ℤ} → Signals (c_signal n v) (c_unlock n v)

  -- A place that signals, one that waits for that, and where the waiter goes.
  pub data Wakes : Pc → Pc → Pc → Type 0 where
    fill_wakes : {i n : ℕ} → Wakes (p_signal i) (c_wait n) (c_woken n)
    empty_wakes : {i n : ℕ} {v : ℤ} → Wakes (c_signal n v) (p_wait i) (p_woken i)

  pub data Step (s : System) : System → Type 0 where
    act :
        (id : ℕ) {m : Mem} {p : Pc}
        → id < cfg.producers + cfg.consumers
        → Move id s.mem (s.pc id) m p
        → Step s (record { mem = m; pc = update s.pc id p })
    signal_one :
        (id j : ℕ) {p q : Pc}
        → Signals (s.pc id) p
        → Wakes (s.pc id) (s.pc j) q
        → Step s (record { mem = s.mem; pc = update (update s.pc j q) id p })
    signal_none :
        (id : ℕ) {p : Pc}
        → Signals (s.pc id) p
        → ((j : ℕ) (q : Pc) → ¬ Wakes (s.pc id) (s.pc j) q)
        → Step s (record { mem = s.mem; pc = update s.pc id p })

  abbrev pub first_pc : ℕ → Pc
  first_pc id =
      if ltb id cfg.producers
      then p_lock 0
      else if ltb id (cfg.producers + cfg.consumers)
      then c_lock 0
      else done 0

  abbrev pub start : System
  start = record { mem = record { lock = none; shared = make_buffer cfg.max }; pc = first_pc }
