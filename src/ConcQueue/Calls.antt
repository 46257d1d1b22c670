-- ===== src/ConcQueue/Calls.antt =====
-- concqueue.h, statement by statement: an enqueue and a dequeue that overlap.
--
-- One thread at a time has `tail_lock` and one has `head_lock`; a thread that waits for a lock has
-- not made its step yet. The node that `Queue_Enqueue` fills before it takes the lock is seen by
-- nobody else, so that this is one step with the lock. `free` comes after the lock is given back.
use sysprg.Prelude.{ℕ, suc, ◌≡◌, none, some, List, [], ◌∷◌, ◌++◌, update, length}
use sysprg.Prelude.Int.{ℤ}
use sysprg.ConcQueue.{Queue, queue_init}

-- The holder of `tail_lock` in `Queue_Enqueue`, with `tmp` and `value`.
pub data Enqueuer : Type 0 where
  e_idle : Enqueuer
  e_link : ℕ → ℤ → Enqueuer  -- before q->tail->next = tmp
  e_tail : ℕ → Enqueuer  -- before q->tail = tmp
  e_unlock : Enqueuer  -- before pthread_mutex_unlock(&q->tail_lock)

-- The holder of `head_lock` in `Queue_Dequeue`, with `tmp`, `new_head` and the value read.
pub data Dequeuer : Type 0 where
  d_idle : Dequeuer
  d_read : Dequeuer  -- before new_head = tmp->next
  d_value : ℕ → ℕ → Dequeuer  -- before *value = new_head->value
  d_head : ℕ → ℕ → ℤ → Dequeuer  -- before q->head = new_head
  d_unlock : ℕ → Dequeuer  -- before pthread_mutex_unlock(&q->head_lock)

-- What a block of memory is for: of these only `dead`, a block that is not allocated, is known to the
-- program. The nodes of the queue are counted in their order.
pub data Status : Type 0 where
  dead : Status
  own : Status
  linked : ℕ → Status
  removed : Status
  doomed : Status

-- `put` and `got` are the values linked in and taken out so far, in order.
pub record System : Type 0 where
  pub q : Queue
  pub status : ℕ → Status
  pub e : Enqueuer
  pub d : Dequeuer
  pub put : List ℤ
  pub got : List ℤ

-- After `Queue_Init` with the block `tmp`, on any heap.
unfoldable pub start : Queue → ℕ → System
unfolding queue_init
start heap tmp = record {
  q = queue_init heap tmp;
  status = update (λ a. dead) tmp (linked 0);
  e = e_idle;
  d = d_idle;
  put = [];
  got = [];
}

pub data Step (s : System) : System → Type 0 where
  -- `malloc` gives a block that is not allocated.
  enqueue :
      (tmp : ℕ) (v : ℤ)
      → s.e ≡ e_idle
      → s.status tmp ≡ dead
      → Step s (record s {
        q = record s.q { next = update s.q.next tmp none; value = update s.q.value tmp v };
        status = update s.status tmp own;
        e = e_link tmp v;
      })
  link :
      (tmp : ℕ) (v : ℤ)
      → s.e ≡ e_link tmp v
      → Step s (record s {
        q = record s.q { next = update s.q.next s.q.tail (some tmp) };
        status = update s.status tmp (linked (suc (length s.put)));
        e = e_tail tmp;
        put = s.put ++ v ∷ [];
      })
  set_tail :
      (tmp : ℕ)
      → s.e ≡ e_tail tmp
      → Step s (record s { q = record s.q { tail = tmp }; e = e_unlock })
  unlock_tail : s.e ≡ e_unlock → Step s (record s { e = e_idle })
  dequeue : s.d ≡ d_idle → Step s (record s { d = d_read })
  -- The call gives the lock back and returns -1.
  saw_none : s.d ≡ d_read → s.q.next s.q.head ≡ none → Step s (record s { d = d_idle })
  saw_node :
      (n : ℕ)
      → s.d ≡ d_read
      → s.q.next s.q.head ≡ some n
      → Step s (record s { d = d_value s.q.head n })
  read_value :
      (tmp n : ℕ) → s.d ≡ d_value tmp n → Step s (record s { d = d_head tmp n (s.q.value n) })
  set_head :
      (tmp n : ℕ) (v : ℤ)
      → s.d ≡ d_head tmp n v
      → Step s (record s {
        q = record s.q { head = n };
        status = update s.status tmp removed;
        d = d_unlock tmp;
        got = s.got ++ v ∷ [];
      })
  unlock_head :
      (tmp : ℕ)
      → s.d ≡ d_unlock tmp
      → Step s (record s { d = d_idle; status = update s.status tmp doomed })
  free_node : (a : ℕ) → s.status a ≡ doomed → Step s (record s { status = update s.status a dead })
