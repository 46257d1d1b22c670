-- ===== src/Synchronizer.antt =====
-- concurrency/threads-api/main-signal-cv.c: `main` waits until its thread is done, on a flag with a
-- mutex and a condition variable.
--
-- A step is one statement of one of the two threads. POSIX: `pthread_cond_wait` gives the mutex back and
-- sleeps in one step, and has the mutex again before it returns; it may also wake with no signal.
pub mod Places
pub mod Order
mod Tests
use sysprg.Prelude.{ℕ, ◌≡◌, ◌≢◌, List, [], ◌∷◌}

-- Who has `s.lock`.
pub data Owner : Type 0 where
  nobody : Owner
  by_main : Owner
  by_worker : Owner

-- The lines that are printed.
pub data Line : Type 0 where
  first : Line
  last : Line

-- Where `main` stands.
pub data MainPc : Type 0 where
  m_init : MainPc  -- before signal_init
  m_create : MainPc  -- before Pthread_create
  m_lock : MainPc  -- signal_wait: before Pthread_mutex_lock
  m_test : MainPc  -- at s->done == 0
  m_wait : MainPc  -- before Pthread_cond_wait
  m_asleep : MainPc  -- in it, asleep
  m_woken : MainPc  -- in it, awake, without the mutex
  m_unlock : MainPc  -- before Pthread_mutex_unlock
  m_print : MainPc  -- before "this should print last"
  m_end : MainPc

-- Where `worker` stands.
pub data WorkerPc : Type 0 where
  w_none : WorkerPc  -- not created
  w_print : WorkerPc  -- before "this should print first"
  w_lock : WorkerPc  -- signal_done: before Pthread_mutex_lock
  w_set : WorkerPc  -- before s->done = 1
  w_signal : WorkerPc  -- before Pthread_cond_signal
  w_unlock : WorkerPc  -- before Pthread_mutex_unlock
  w_end : WorkerPc

-- `synchronizer_t s`, what is printed (the latest first), and the threads.
pub record System : Type 0 where
  pub owner : Owner
  pub done : ℕ
  pub printed : List Line
  pub m : MainPc
  pub w : WorkerPc

-- `s` is a global: its bytes are 0 before `signal_init`.
unfoldable pub start : System
start = record { owner = nobody; done = 0; printed = []; m = m_init; w = w_none }

-- A thread that sleeps on the condition variable is woken; a signal to nobody does nothing.
abbrev pub wake : MainPc → MainPc
wake m_asleep = m_woken
wake p = p

pub data Step (s : System) : System → Type 0 where
  signal_init : s.m ≡ m_init → Step s (record s { owner = nobody; done = 0; m = m_create })
  create : s.m ≡ m_create → Step s (record s { m = m_lock; w = w_print })
  main_lock : s.m ≡ m_lock → s.owner ≡ nobody → Step s (record s { owner = by_main; m = m_test })
  test_again : s.m ≡ m_test → s.done ≡ 0 → Step s (record s { m = m_wait })
  test_done : s.m ≡ m_test → s.done ≢ 0 → Step s (record s { m = m_unlock })
  cond_wait : s.m ≡ m_wait → Step s (record s { owner = nobody; m = m_asleep })
  relock : s.m ≡ m_woken → s.owner ≡ nobody → Step s (record s { owner = by_main; m = m_test })
  main_unlock : s.m ≡ m_unlock → Step s (record s { owner = nobody; m = m_print })
  print_last : s.m ≡ m_print → Step s (record s { printed = last ∷ s.printed; m = m_end })
  print_first : s.w ≡ w_print → Step s (record s { printed = first ∷ s.printed; w = w_lock })
  worker_lock : s.w ≡ w_lock → s.owner ≡ nobody → Step s (record s { owner = by_worker; w = w_set })
  set_done : s.w ≡ w_set → Step s (record s { done = 1; w = w_signal })
  cond_signal : s.w ≡ w_signal → Step s (record s { m = wake s.m; w = w_unlock })
  worker_unlock : s.w ≡ w_unlock → Step s (record s { owner = nobody; w = w_end })

-- The same, where `main` may also wake with no signal.
pub data AnyStep (s : System) : System → Type 0 where
  step : {t : System} → Step s t → AnyStep s t
  spurious : s.m ≡ m_asleep → AnyStep s (record s { m = m_woken })
