-- ===== src/ConcQueue.antt =====
-- concurrency/threads-locks/concqueue.h: the queue of nodes with one lock for each end.
--
-- A node is an address; the heap gives its fields. Each call is taken whole, as the lock of its end
-- makes it. `malloc` is not of this code: the block it gives is an argument.
pub mod Fifo
pub mod Calls
pub mod Nodes
pub mod Invariant
pub mod Steps
pub mod Overlap
mod Tests
use sysprg.Prelude.{ℕ, Option, none, some, update}
use sysprg.Prelude.Int.{ℤ, pos, negsuc}

-- `queue_t`, without its locks, and the fields of all nodes
pub record Queue : Type 0 where
  pub head : ℕ
  pub tail : ℕ
  pub next : ℕ → Option ℕ
  pub value : ℕ → ℤ

-- `Queue_Init` on a heap, with the block `tmp`
unfoldable pub queue_init : Queue → ℕ → Queue
queue_init q tmp = record q { head = tmp; tail = tmp; next = update q.next tmp none }

-- `Queue_Enqueue(q, value)`, with the block `tmp`
unfoldable pub queue_enqueue : Queue → ℤ → ℕ → Queue
queue_enqueue q value tmp = record q {
  tail = tmp;
  next = update (update q.next tmp none) q.tail (some tmp);
  value = update q.value tmp value;
}

-- What `Queue_Dequeue` returns, what it stores in `*value`, and the node it frees.
pub record Dequeued : Type 0 where
  pub rv : ℤ
  pub stored : Option ℤ
  pub freed : Option ℕ
  pub queue : Queue

unfoldable pub queue_dequeue : Queue → Dequeued
queue_dequeue q = elim (q.next q.head) [
  | none ↦ record { rv = negsuc 0; stored = none; freed = none; queue = q }
  | some new_head ↦ record {
    rv = pos 0;
    stored = some (q.value new_head);
    freed = some q.head;
    queue = record q { head = new_head };
  }
]
