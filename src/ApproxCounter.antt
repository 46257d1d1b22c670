-- ===== src/ApproxCounter.antt =====
-- concurrency/threads-locks/apprxcntr.c: the approximate counter.
--
-- A call of `update` holds the lock of its CPU and one of `get` the global lock, so that calls come
-- in some order; that order is a list. Amounts are numbers ("assumes amt>0"), and the model covers
-- the runs in which no count leaves the range of `int`.
pub mod Accuracy
pub mod Calls
pub mod Overlap
mod Tests
use sysprg.Prelude.{ℕ, ◌+◌, ◌%◌, List, [], ◌∷◌, update, leb, if◌then◌else◌}

abbrev pub numcpus : ℕ
numcpus = 8

-- `counter_t`, without its locks
pub record Counter : Type 0 where
  pub global_count : ℕ
  pub local : ℕ → ℕ
  pub threshold : ℕ

unfoldable pub init : ℕ → Counter
init threshold = record { global_count = 0; local = λ i. 0; threshold = threshold }

-- `c->local[cpu] += amt`, and the transfer once the threshold is reached
unfoldable pub update_count : Counter → ℕ → ℕ → Counter
update_count c thread_id amt =
    let cpu = thread_id % numcpus in
    let count = c.local cpu + amt in
    if leb c.threshold count
    then record c { global_count = c.global_count + count; local = update c.local cpu 0 }
    else record c { local = update c.local cpu count }

unfoldable pub get : Counter → ℕ
get c = c.global_count

-- The calls of `update` that the threads make: each a thread and an amount.
unfoldable pub update_each : Counter → List (ℕ × ℕ) → Counter
unfolding update_count
update_each c [] = c
update_each c ((thread_id, amt) ∷ calls) = update_each (update_count c thread_id amt) calls
