-- ===== src/ProducerConsumer.antt =====
-- The threads of concurrency/threads-cv: `producer` and `consumer`, and `main` of main-common.c,
-- which joins the producers and then adds one END_OF_STREAM for each consumer. The four programs
-- share this text up to a few choices, which `Program` names.
--
-- Shared accesses happen under the mutex, so a step is one statement. POSIX: a mutex is free or has
-- an owner; a wait frees it and blocks; a signal wakes one waiter of its condition variable if there
-- is one; a waiter may also wake by itself, and takes the mutex before it goes on.
pub mod Invariant
pub mod Safety
pub mod Credits
pub mod Streams
pub mod Tally
pub mod Running
pub mod Holding
pub mod Idle
pub mod Progress
pub mod Delivered
pub mod Ranking
pub mod Termination
pub mod Broken
pub mod Deadlock
mod Tests
use sysprg.Prelude.{
  ℕ, zero, suc, ◌+◌, ◌-◌, ◌*◌, ◌≤◌, ◌<◌, ◌≡◌, ◌≢◌, Bool, true, false, Option, none, some, List, [],
  ◌∷◌, ◌++◌, ltb, leb, ◌==◌, ◌&&◌, if◌then◌else◌, update,
}
use sysprg.Prelude.Int.{ℤ, pos}
use sysprg.Buffer.{Shared, Outcome, ok, do_fill, do_get, make_buffer, end_of_stream, eq_int}

-- The choices in which the programs differ: whether the test before a wait is a `while`, and whether
-- the two condition variables are one.
pub record Program : Type 0 where
  pub retests : Bool
  pub one_cv : Bool

-- main-two-cvs-while.c
abbrev pub two_cvs_while : Program
two_cvs_while = record { retests = true; one_cv = false }

-- main-one-cv-while.c
abbrev pub one_cv_while : Program
one_cv_while = record { retests = true; one_cv = true }

-- main-two-cvs-if.c
abbrev pub two_cvs_if : Program
two_cvs_if = record { retests = false; one_cv = false }

-- The command line, as far as it shows here: `-l`, `-m`, `-p`, `-c`.
pub record Config : Type 0 where
  pub program : Program
  pub loops : ℕ
  pub max : ℕ
  pub producers : ℕ
  pub consumers : ℕ

-- Where a thread stands. The producers and `main` go through the `p` places, the consumers through
-- the `c` places; the number counts the rounds that are done.
pub data Pc : Type 0 where
  p_lock : ℕ → Pc  -- before Mutex_lock
  p_test : ℕ → Pc  -- at the test of `num_full == max`
  p_wait : ℕ → Pc  -- blocked in Cond_wait
  p_woken : ℕ → Pc  -- woken, before it has the mutex again
  p_fill : ℕ → Pc  -- before do_fill
  p_signal : ℕ → Pc  -- before Cond_signal
  p_unlock : ℕ → Pc  -- before Mutex_unlock
  c_lock : ℕ → Pc
  c_test : ℕ → Pc
  c_wait : ℕ → Pc
  c_woken : ℕ → Pc
  c_get : ℕ → Pc
  c_signal : ℕ → ℤ → Pc  -- with `tmp`
  c_unlock : ℕ → ℤ → Pc
  done : ℕ → Pc  -- has returned

-- The mutex `m`, the buffer, and two logs that the program does not keep: the values filled in and
-- the values taken out so far, oldest first.
pub record Mem : Type 0 where
  pub lock : Option ℕ
  pub shared : Shared
  pub put : List ℤ
  pub got : List ℤ

-- Cond_signal, after which its thread is here.
pub data Signals : Pc → Pc → Type 0 where
  p_signals : {i : ℕ} → Signals (p_signal i) (p_unlock i)
  c_signals : {n : ℕ} {v : ℤ} → Signals (c_signal n v) (c_unlock n v)

-- A waiter wakes with no signal.
pub data Rouses : Pc → Pc → Type 0 where
  p_rouses : {i : ℕ} → Rouses (p_wait i) (p_woken i)
  c_rouses : {n : ℕ} → Rouses (c_wait n) (c_woken n)

pub record System : Type 0 where
  pub mem : Mem
  pub pc : ℕ → Pc

module _ (cfg : Config) where
  -- Thread ids: the producers, then the consumers, then `main`.
  abbrev pub main_id : ℕ
  main_id = cfg.producers + cfg.consumers

  -- `base + i` for a producer, with `base = id * loops`; END_OF_STREAM for `main`. The `int`s are
  -- taken to be wide enough, as they are while `producers * loops` is at most 2 ^ 31.
  abbrev pub value : ℕ → ℕ → ℤ
  value id i = if ltb id cfg.producers then pos (id * cfg.loops + i) else end_of_stream

  -- How often the loop of a producer, or the last loop of `main`, runs.
  abbrev pub rounds : ℕ → ℕ
  rounds id = if ltb id cfg.producers then cfg.loops else cfg.consumers

  -- Where a woken thread goes on: at the test, or past it if that was an `if`.
  abbrev pub resume_fill : ℕ → Pc
  resume_fill i = if cfg.program.retests then p_test i else p_fill i

  abbrev pub resume_get : ℕ → Pc
  resume_get n = if cfg.program.retests then c_test n else c_get n

  -- The end of a consumer's round: `while (tmp != END_OF_STREAM)`.
  abbrev pub next_round : ℕ → ℤ → Pc
  next_round n tmp = if eq_int tmp end_of_stream then done n else c_lock (suc n)

  -- The steps of thread `id` that move no other thread.
  pub data Move (id : ℕ) (m : Mem) : Pc → Mem → Pc → Type 0 where
    p_take :
        {i : ℕ}
        → i < rounds id
        → m.lock ≡ none
        → Move id m (p_lock i) (record m { lock = some id }) (p_test i)
    p_stop : {i : ℕ} → rounds id ≤ i → Move id m (p_lock i) m (done i)
    p_full :
        {i : ℕ}
        → m.shared.num_full ≡ cfg.max
        → Move id m (p_test i) (record m { lock = none }) (p_wait i)
    p_room : {i : ℕ} → m.shared.num_full ≢ cfg.max → Move id m (p_test i) m (p_fill i)
    p_retake :
        {i : ℕ}
        → m.lock ≡ none
        → Move id m (p_woken i) (record m { lock = some id }) (resume_fill i)
    p_put :
        {i : ℕ} {s : Shared}
        → do_fill (value id i) m.shared ≡ ok s
        → Move id m
            (p_fill i)
            (record m { shared = s; put = m.put ++ value id i ∷ [] })
            (p_signal i)
    p_release : {i : ℕ} → Move id m (p_unlock i) (record m { lock = none }) (p_lock (suc i))
    c_take : {n : ℕ} → m.lock ≡ none → Move id m (c_lock n) (record m { lock = some id }) (c_test n)
    c_empty :
        {n : ℕ} → m.shared.num_full ≡ 0 → Move id m (c_test n) (record m { lock = none }) (c_wait n)
    c_some : {n : ℕ} → m.shared.num_full ≢ 0 → Move id m (c_test n) m (c_get n)
    c_retake :
        {n : ℕ} → m.lock ≡ none → Move id m (c_woken n) (record m { lock = some id }) (resume_get n)
    c_take_out :
        {n : ℕ} {v : ℤ} {s : Shared}
        → do_get m.shared ≡ ok (v, s)
        → Move id m (c_get n) (record m { shared = s; got = m.got ++ v ∷ [] }) (c_signal n v)
    c_release :
        {n : ℕ} {v : ℤ} → Move id m (c_unlock n v) (record m { lock = none }) (next_round n v)

  -- A thread blocked on the condition variable that a place signals, and where the waiter goes.
  -- A producer signals `fill`, on which consumers wait; a consumer signals `empty`.
  pub data Wakes : Pc → Pc → Pc → Type 0 where
    fill_wakes : {i n : ℕ} → Wakes (p_signal i) (c_wait n) (c_woken n)
    empty_wakes : {i n : ℕ} {v : ℤ} → Wakes (c_signal n v) (p_wait i) (p_woken i)
    fill_wakes_own :
        {i j : ℕ} → cfg.program.one_cv ≡ true → Wakes (p_signal i) (p_wait j) (p_woken j)
    empty_wakes_own :
        {n k : ℕ} {v : ℤ} → cfg.program.one_cv ≡ true → Wakes (c_signal n v) (c_wait k) (c_woken k)

  -- `main` joins the producers before its loop.
  abbrev pub MayRun : (ℕ → Pc) → ℕ → Type 0
  MayRun pc id = id ≡ main_id → (j : ℕ) → j < cfg.producers → (i : ℕ) × (pc j ≡ done i)

  pub data Step (s : System) : System → Type 0 where
    act :
        (id : ℕ) {m : Mem} {p : Pc}
        → id ≤ main_id
        → MayRun s.pc id
        → Move id s.mem (s.pc id) m p
        → Step s (record { mem = m; pc = update s.pc id p })
    signal_one :
        (id j : ℕ) {p q : Pc}
        → Signals (s.pc id) p
        → Wakes (s.pc id) (s.pc j) q
        → Step s (record { mem = s.mem; pc = update (update s.pc j q) id p })
    signal_none :
        (id : ℕ) {p : Pc}
        → Signals (s.pc id) p
        → ((j : ℕ) (q : Pc) → ¬ Wakes (s.pc id) (s.pc j) q)
        → Step s (record { mem = s.mem; pc = update s.pc id p })
    rouse :
        (j : ℕ) {q : Pc} → Rouses (s.pc j) q → Step s (record { mem = s.mem; pc = update s.pc j q })

  abbrev pub first_pc : ℕ → Pc
  first_pc id =
      if ltb id cfg.producers
      then p_lock 0
      else if ltb id main_id
      then c_lock 0
      else if id == main_id
      then p_lock 0
      else done 0

  abbrev pub init : System
  init = record {
    mem = record { lock = none; shared = make_buffer cfg.max; put = []; got = [] };
    pc = first_pc;
  }

  pub data Reach : System → Type 0 where
    start : Reach init
    later : {s t : System} → Reach s → Step s t → Reach t
