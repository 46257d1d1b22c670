-- ===== src/ConcQueue/Tests.antt =====
-- The queue of concqueue.h at addresses 10, 11, 12.
use sysprg.Prelude.{ℕ, ◌≡◌, ◌≢◌, ◌++◌, List, refl, none, some, [], ◌∷◌, arith, ℕ_discrete}
use sysprg.Prelude.Int.{ℤ, pos}
use sysprg.ConcQueue.{Queue, queue_init, queue_enqueue, queue_dequeue}
use sysprg.Prelude.Reach.{Reach, here, next}
use sysprg.ConcQueue.Calls.{
  System, start, Step, dead, e_link, d_read, d_value, enqueue, link, dequeue, saw_node, read_value,
  set_head, unlock_head, free_node,
}
use sysprg.ConcQueue.Overlap.{overlapping_fifo, no_dangling}
use sysprg.ConcQueue.Fifo.{Chain, queue_init-Chain, queue_enqueue-Chain}

abbrev heap : Queue
heap = record { head = 0; tail = 0; next = λ a. none; value = λ a. pos 0 }

abbrev empty_queue : Queue
unfolding queue_init
empty_queue = queue_init heap 10

one-Chain : Chain (queue_enqueue empty_queue (pos 7) 11) 10 (11 ∷ []) (pos 7 ∷ [])
unfolding queue_enqueue queue_init
one-Chain =
    queue_enqueue-Chain empty_queue (pos 7) 11 [] [] (queue_init-Chain heap 10) (omega arith)

-- Two values come out in the order in which they went in.
second_out :
    (queue_dequeue
      (queue_dequeue
        (queue_enqueue (queue_enqueue empty_queue (pos 7) 11) (pos 8) 12)).queue).stored
    ≡ some (pos 8)
unfolding queue_enqueue queue_dequeue queue_init ℕ_discrete
second_out = refl

-- A dequeue finds a node that is linked but is not the tail yet, and frees the old tail.
overlap : (s : System) × Reach Step (start heap 10) s × (s.status s.q.tail ≡ dead)
unfolding start queue_init ℕ_discrete
overlap = (
  _,
  next
      (next
        (next
          (next
            (next
              (next (next (next here (enqueue 11 (pos 7) refl refl)) (link 11 (pos 7) refl))
                (dequeue refl))
              (saw_node 11 refl refl))
            (read_value 10 11 refl))
          (set_head 10 11 (pos 7) refl))
        (unlock_head 10 refl))
      (free_node 10 refl),
  refl,
)

overlapping_fifo_example :
    ((rest : List ℤ) × (overlap.0.put ≡ overlap.0.got ++ rest))
    × (overlap.0.d ≡ d_read
        → overlap.0.q.next overlap.0.q.head ≡ none
        → overlap.0.put ≡ overlap.0.got)
overlapping_fifo_example = overlapping_fifo heap 10 overlap.0 overlap.1

no_dangling_example :
    (overlap.0.status overlap.0.q.head ≢ dead)
    × ((b : ℕ) (v : ℤ) → overlap.0.e ≡ e_link b v → overlap.0.status overlap.0.q.tail ≢ dead)
    × ((b n : ℕ) → overlap.0.d ≡ d_value b n → overlap.0.status n ≢ dead)
no_dangling_example = no_dangling heap 10 overlap.0 overlap.1
