-- ===== src/Barrier.antt =====
-- concurrency/threads-sema/barrier.c: what was written for a barrier.
--
-- Here a call is taken whole, with the calls of the other threads before or after it; where it waits for a
-- semaphore that is 0, it is blocked in the state at that point.
pub mod Passing
pub mod Threads
use sysprg.Prelude.{ℕ, zero, suc, Bool, true, false, if◌then◌else◌, ◌==◌}
use sysprg.Prelude.Int.{ℤ, pos, negsuc, ◌+ℤ◌, ◌-ℤ◌}

-- `barrier_t`, its semaphores by their values
pub record Barrier : Type 0 where
  pub lock : ℕ
  pub playlock : ℕ
  pub players : ℤ
  pub threads : ℕ

pub data Call : Type 0 where
  returned : Barrier → Call
  blocked : Barrier → Call

abbrev pub and_then : Call → (Barrier → Call) → Call
and_then (returned b) next = next b
and_then (blocked b) next = blocked b

abbrev pub wait_lock : Barrier → Call
wait_lock b = elim b.lock [ zero ↦ blocked b | suc n ↦ returned (record b { lock = n }) ]

abbrev pub post_lock : Barrier → Call
post_lock b = returned (record b { lock = suc b.lock })

abbrev pub wait_playlock : Barrier → Call
wait_playlock b = elim b.playlock [
  | zero ↦ blocked b
  | suc n ↦ returned (record b { playlock = n })
]

-- `players` is never set: a global of C starts at 0.
unfoldable pub barrier_init : ℕ → Barrier
barrier_init num_threads = record { lock = 1; playlock = 1; players = pos 0; threads = num_threads }

abbrev pub is : ℕ → ℤ → Bool
is n (pos m) = m == n
is n (negsuc m) = false

unfoldable pub acquire_playlock : Barrier → Call
unfolding ◌-ℤ◌
acquire_playlock b = and_then (wait_lock b) (λ b1.
    let b2 = record b1 { players = b1.players -ℤ pos 1 } in
    and_then (if is 1 b2.players then wait_playlock b2 else returned b2) post_lock)

unfoldable pub release_playlock : Barrier → Call
unfolding ◌+ℤ◌
release_playlock b = and_then (wait_lock b) (λ b1.
    let b2 = record b1 { players = b1.players +ℤ pos 1 } in
    and_then (if is 0 b2.players then wait_playlock b2 else returned b2) post_lock)

-- `barrier`, less its `sleep`
unfoldable pub barrier : Barrier → Call
unfolding acquire_playlock release_playlock
barrier b = and_then (acquire_playlock b) release_playlock

-- The calls of `barrier` by the children, one after the other.
pub children : ℕ → Barrier → Call
unfolding barrier
children zero b = returned b
children (suc n) b = and_then (barrier b) (children n)
