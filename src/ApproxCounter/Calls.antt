-- ===== src/ApproxCounter/Calls.antt =====
-- apprxcntr.c, statement by statement: calls of `update` that overlap, on the same CPU or on others.
--
-- Whoever has `llock[cpu]` is the only one that uses `local[cpu]`, so that its place in `update` is kept by
-- the CPU. A thread that waits for a lock is one that has not made its step yet.
use sysprg.Prelude.{ℕ, ◌+◌, ◌%◌, ◌≤◌, ◌<◌, ◌≡◌, Option, none, some, update}
use sysprg.ApproxCounter.{Counter, init, numcpus}

-- Where the holder of a CPU's lock stands, with the amount of its call.
pub data Phase : Type 0 where
  free : Phase  -- nobody has llock[cpu]
  adding : ℕ → Phase  -- before c->local[cpu] += amt
  testing : ℕ → Phase  -- at c->local[cpu] >= c->threshold
  waiting : ℕ → Phase  -- before pthread_mutex_lock(&c->glock)
  moving : ℕ → Phase  -- before c->global += c->local[cpu]
  moved : Phase  -- before pthread_mutex_unlock(&c->glock)
  clearing : Phase  -- before c->local[cpu] = 0
  leaving : Phase  -- before pthread_mutex_unlock(&c->llock[cpu])

-- `total` adds up the amounts as they are added to the local counts; the program does not have it.
pub record System : Type 0 where
  pub counter : Counter
  pub phase : ℕ → Phase
  pub glock : Option ℕ
  pub total : ℕ

unfoldable pub start : ℕ → System
unfolding init
start threshold = record { counter = init threshold; phase = λ i. free; glock = none; total = 0 }

pub data Step (s : System) : System → Type 0 where
  take_llock :
      (i thread_id amt : ℕ)
      → i ≡ thread_id % numcpus
      → s.phase i ≡ free
      → Step s (record s { phase = update s.phase i (adding amt) })
  add :
      (i amt : ℕ)
      → s.phase i ≡ adding amt
      → Step s (record s {
        counter = record s.counter { local = update s.counter.local i (s.counter.local i + amt) };
        phase = update s.phase i (testing amt);
        total = s.total + amt;
      })
  below :
      (i amt : ℕ)
      → s.phase i ≡ testing amt
      → s.counter.local i < s.counter.threshold
      → Step s (record s { phase = update s.phase i leaving })
  reached :
      (i amt : ℕ)
      → s.phase i ≡ testing amt
      → s.counter.threshold ≤ s.counter.local i
      → Step s (record s { phase = update s.phase i (waiting amt) })
  take_glock :
      (i amt : ℕ)
      → s.phase i ≡ waiting amt
      → s.glock ≡ none
      → Step s (record s { phase = update s.phase i (moving amt); glock = some i })
  transfer :
      (i amt : ℕ)
      → s.phase i ≡ moving amt
      → Step s (record s {
        counter = record s.counter { global_count = s.counter.global_count + s.counter.local i };
        phase = update s.phase i moved;
      })
  give_glock :
      (i : ℕ)
      → s.phase i ≡ moved
      → Step s (record s { phase = update s.phase i clearing; glock = none })
  clear :
      (i : ℕ)
      → s.phase i ≡ clearing
      → Step s (record s {
        counter = record s.counter { local = update s.counter.local i 0 };
        phase = update s.phase i leaving;
      })
  give_llock : (i : ℕ) → s.phase i ≡ leaving → Step s (record s { phase = update s.phase i free })
