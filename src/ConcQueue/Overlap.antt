-- ===== src/ConcQueue/Overlap.antt =====
-- concqueue.h: what an enqueue and a dequeue that overlap do to the values and the memory.
use sysprg.Prelude.{ℕ, ◌≡◌, ◌≢◌, ap, ◌∙◌, none, List, ◌++◌, arith, append-nil}
use mathlib.Core.Path.{subst}
use sysprg.Prelude.Int.{ℤ}
use sysprg.Prelude.Reach.{Reach, Reach-keeps}
use sysprg.ConcQueue.{Queue}
use sysprg.ConcQueue.Calls.{e_link, d_read, d_value, dead, System, start, Step}
use sysprg.ConcQueue.Nodes.{first_status, last_status, Nodes-none}
use sysprg.ConcQueue.Invariant.{Enqueues, Dequeues, Inv, start-Inv}
use sysprg.ConcQueue.Steps.{Step-Inv}

reached-Inv : (heap : Queue) (tmp : ℕ) {s : System} → Reach Step (start heap tmp) s → Inv s
reached-Inv heap tmp r = Reach-keeps Step Inv Step-Inv (start-Inv heap tmp) r

-- However the steps of enqueues and dequeues alternate: the values that were taken out are the first of
-- those that were put in, in the same order; and where a dequeue finds no next node and so
-- returns -1, every value put in has been taken out.
pub overlapping_fifo :
    (heap : Queue) (tmp : ℕ) (s : System)
    → Reach Step (start heap tmp) s
    → ((rest : List ℤ) × (s.put ≡ s.got ++ rest))
      × (s.d ≡ d_read → s.q.next s.q.head ≡ none → s.put ≡ s.got)
overlapping_fifo heap tmp s r =
    let inv : Inv s = reached-Inv heap tmp r in
    (
      (inv.xs, inv.kept),
      λ d n. inv.kept ∙ ap (λ l. s.got ++ l) (Nodes-none n inv.nodes) ∙ append-nil s.got,
    )

-- However they alternate, no step reads or writes a block that was freed: neither the tail to which an
-- enqueue links its node, nor the head, nor the node whose value a dequeue reads is a
-- block that is not allocated.
pub no_dangling :
    (heap : Queue) (tmp : ℕ) (s : System)
    → Reach Step (start heap tmp) s
    → (s.status s.q.head ≢ dead)
      × ((b : ℕ) (v : ℤ) → s.e ≡ e_link b v → s.status s.q.tail ≢ dead)
      × ((b n : ℕ) → s.d ≡ d_value b n → s.status n ≢ dead)
no_dangling heap tmp s r =
    let inv : Inv s = reached-Inv heap tmp r in
    (
      (λ e. ground (arith, first_status inv.nodes)),
      (λ b v e f.
          let c = subst (Enqueues s inv.z) e inv.enqueues in
          ground (arith, c, ap s.status c.0, last_status inv.nodes)),
      λ b n e f. let c = subst (Dequeues s) e inv.dequeues in ground (arith, c),
    )
