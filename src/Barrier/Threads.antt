-- ===== src/Barrier/Threads.antt =====
-- barrier.c: the children, one access of a semaphore or of `players` at a time.
--
-- A thread that waits for a semaphore goes on when the semaphore is not 0. A thread that is not created
-- yet is before its first print. `sleep` has no effect on the shared state.
pub mod Counts
pub mod Progress
pub mod Overlap
pub mod Fresh
pub mod Inside
pub mod Early
mod Tests
use sysprg.Prelude.{ℕ, suc, ◌+◌, ◌≡◌, ◌<◌, if◌then◌else◌, update}
use sysprg.Prelude.Int.{pos, ◌+ℤ◌, ◌-ℤ◌}
use sysprg.Barrier.{Barrier, barrier_init, is}

-- Where a child stands.
pub data Pc : Type 0 where
  says_before : Pc
  locks_in : Pc  -- acquire_playlock, before sem_wait(lock)
  counts_in : Pc  -- before players--
  plays_in : Pc  -- before sem_wait(playlock)
  posts_in : Pc  -- before sem_post(lock)
  locks_out : Pc  -- release_playlock, before sem_wait(lock)
  counts_out : Pc  -- before players++
  plays_out : Pc  -- before sem_wait(playlock)
  posts_out : Pc  -- before sem_post(lock)
  says_after : Pc
  finished : Pc

pub record System : Type 0 where
  pub b : Barrier
  pub pc : ℕ → Pc

unfoldable pub start : ℕ → System
unfolding barrier_init
start n = record { b = barrier_init n; pc = λ j. says_before }

-- After `b->players--` and its test, and after `b->players++`.
abbrev pub counted_in : Barrier → Pc
counted_in b = if is 1 b.players then plays_in else posts_in

abbrev pub counted_out : Barrier → Pc
counted_out b = if is 0 b.players then plays_out else posts_out

abbrev pub count_in : Barrier → Barrier
count_in b = record b { players = b.players -ℤ pos 1 }

abbrev pub count_out : Barrier → Barrier
count_out b = record b { players = b.players +ℤ pos 1 }

-- A step of child `j`.
pub data Move (j : ℕ) (s : System) : System → Type 0 where
  say_before : s.pc j ≡ says_before → Move j s (record s { pc = update s.pc j locks_in })
  lock_in :
      (k : ℕ)
      → s.pc j ≡ locks_in
      → s.b.lock ≡ suc k
      → Move j s (record { b = record s.b { lock = k }; pc = update s.pc j counts_in })
  decrement :
      s.pc j ≡ counts_in
      → Move j s (record { b = count_in s.b; pc = update s.pc j (counted_in (count_in s.b)) })
  play_in :
      (k : ℕ)
      → s.pc j ≡ plays_in
      → s.b.playlock ≡ suc k
      → Move j s (record { b = record s.b { playlock = k }; pc = update s.pc j posts_in })
  post_in :
      s.pc j ≡ posts_in
      → Move j s (record { b = record s.b { lock = s.b.lock + 1 }; pc = update s.pc j locks_out })
  lock_out :
      (k : ℕ)
      → s.pc j ≡ locks_out
      → s.b.lock ≡ suc k
      → Move j s (record { b = record s.b { lock = k }; pc = update s.pc j counts_out })
  increment :
      s.pc j ≡ counts_out
      → Move j s (record { b = count_out s.b; pc = update s.pc j (counted_out (count_out s.b)) })
  play_out :
      (k : ℕ)
      → s.pc j ≡ plays_out
      → s.b.playlock ≡ suc k
      → Move j s (record { b = record s.b { playlock = k }; pc = update s.pc j posts_out })
  post_out :
      s.pc j ≡ posts_out
      → Move j s (record { b = record s.b { lock = s.b.lock + 1 }; pc = update s.pc j says_after })
  say_after : s.pc j ≡ says_after → Move j s (record s { pc = update s.pc j finished })

-- A step of one of the `n` children.
pub data Step (n : ℕ) (s : System) : System → Type 0 where
  step : {t : System} (j : ℕ) → j < n → Move j s t → Step n s t
