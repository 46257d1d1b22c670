-- ===== src/ConcQueue/Invariant.antt =====
-- concqueue.h: what holds between the steps of an enqueue and a dequeue that overlap.
use sysprg.Prelude.{
  ℕ, suc, ◌≡◌, refl, sym, ap, ◌∙◌, none, some, List, [], ◌++◌, update_self, arith, length,
}
use mathlib.Core.Path.{subst}
use sysprg.Prelude.Int.{ℤ}
use sysprg.ConcQueue.{Queue, queue_init}
use sysprg.ConcQueue.Calls.{
  Enqueuer, e_idle, e_link, e_tail, e_unlock, Dequeuer, d_idle, d_read, d_value, d_head, d_unlock,
  dead, own, linked, removed, System, start,
}
use sysprg.ConcQueue.Nodes.{Nodes, last, first_status, Kept, Nodes-Kept}

-- What the place of the enqueuer says of the last node `z`.
abbrev pub Enqueues : System → ℕ → Enqueuer → Type 0
Enqueues s z e_idle = s.q.tail ≡ z
Enqueues s z (e_link tmp v) =
    (s.q.tail ≡ z) × (s.status tmp ≡ own) × (s.q.next tmp ≡ none) × (s.q.value tmp ≡ v)
Enqueues s z (e_tail tmp) = tmp ≡ z
Enqueues s z e_unlock = s.q.tail ≡ z

-- What the place of the dequeuer says.
abbrev pub Dequeues : System → Dequeuer → Type 0
Dequeues s d_idle = Unit
Dequeues s d_read = Unit
Dequeues s (d_value tmp n) =
    (s.q.head ≡ tmp) × (s.q.next tmp ≡ some n) × (s.status n ≡ linked (suc (length s.got)))
Dequeues s (d_head tmp n v) =
    (s.q.head ≡ tmp)
    × (s.q.next tmp ≡ some n)
    × (s.status n ≡ linked (suc (length s.got)))
    × (s.q.value n ≡ v)
Dequeues s (d_unlock tmp) = s.status tmp ≡ removed

-- The nodes from the head on hold `xs`, the values put in and not yet taken out.
pub record Inv (s : System) : Type 0 where
  pub z : ℕ
  pub xs : List ℤ
  pub nodes : Nodes s (length s.got) s.q.head z xs
  pub kept : s.put ≡ s.got ++ xs
  pub enqueues : Enqueues s z s.e
  pub dequeues : Dequeues s s.d

pub start-Inv : (heap : Queue) (tmp : ℕ) → Inv (start heap tmp)
unfolding start queue_init
start-Inv heap tmp = record {
  z = tmp;
  xs = [];
  nodes = last (update_self (λ a. dead) tmp) (update_self heap.next tmp) refl;
  kept = refl;
  enqueues = refl;
  dequeues = tt;
}

-- A step that leaves the nodes of the queue and the dequeuer alone.
pub record Quiet (s t : System) : Type 0 where
  pub head : t.q.head ≡ s.q.head
  pub got : t.got ≡ s.got
  pub put : t.put ≡ s.put
  pub nodes : Kept 0 s t
  pub gone : (a : ℕ) → s.status a ≡ removed → t.status a ≡ removed

module _ {s t : System} (h : Quiet s t) (inv : Inv s) where
  Quiet-Nodes : Nodes t (length t.got) t.q.head inv.z inv.xs
  Quiet-Nodes =
      subst (λ l. Nodes t (length l) t.q.head inv.z inv.xs) (sym h.got)
        (subst (λ a. Nodes t (length s.got) a inv.z inv.xs) (sym h.head)
          (Nodes-Kept {k0 = 0} h.nodes (omega arith) inv.nodes))

  head_kept : {tmp : ℕ} → s.q.head ≡ tmp → t.q.next tmp ≡ s.q.next tmp
  head_kept {tmp} e =
      h.nodes.next tmp (length s.got) (omega arith) (ap s.status (sym e) ∙ first_status inv.nodes)

  still_linked :
      {n : ℕ} → s.status n ≡ linked (suc (length s.got)) → t.status n ≡ linked (suc (length t.got))
  still_linked {n} e =
      h.nodes.status n (suc (length s.got)) (omega arith) e
      ∙ ap (λ l. linked (suc (length l))) (sym h.got)

  pub Quiet-Dequeues : (d : Dequeuer) → Dequeues s d → Dequeues t d
  Quiet-Dequeues d_idle c = tt
  Quiet-Dequeues d_read c = tt
  Quiet-Dequeues (d_value tmp n) c = (h.head ∙ c.0, head_kept c.0 ∙ c.1, still_linked c.2)
  Quiet-Dequeues (d_head tmp n v) c = (
    h.head ∙ c.0,
    head_kept c.0 ∙ c.1,
    still_linked c.2,
    h.nodes.value n (suc (length s.got)) (omega arith) c.2 ∙ c.3,
  )
  Quiet-Dequeues (d_unlock tmp) c = h.gone tmp c

  -- What is left of the invariant is what is said of the two threads.
  pub Quiet-Inv : Enqueues t inv.z t.e → Dequeues t t.d → Inv t
  Quiet-Inv e d = record {
    z = inv.z;
    xs = inv.xs;
    nodes = Quiet-Nodes;
    kept = h.put ∙ inv.kept ∙ ap (λ l. l ++ inv.xs) (sym h.got);
    enqueues = e;
    dequeues = d;
  }

-- A step that does not touch the memory.
pub unchanged :
    {s t : System} → t.q.next ≡ s.q.next → t.q.value ≡ s.q.value → t.status ≡ s.status → Kept 0 s t
unchanged n v st = record {
  status = λ a j le h. ap (λ f. f a) st ∙ h;
  next = λ a j le h. ap (λ f. f a) n;
  value = λ a j le h. ap (λ f. f a) v;
}

-- What is said of the enqueuer stays true where its end of the queue and its own block are left alone.
pub Enqueues-stays :
    (s t : System) (z : ℕ)
    → t.q.tail ≡ s.q.tail
    → t.q.next ≡ s.q.next
    → t.q.value ≡ s.q.value
    → ((a : ℕ) → s.status a ≡ own → t.status a ≡ own)
    → (e : Enqueuer) → Enqueues s z e
    → Enqueues t z e
Enqueues-stays s t z l n v st e_idle c = l ∙ c
Enqueues-stays s t z l n v st (e_link tmp w) c =
    (l ∙ c.0, st tmp c.1, ap (λ f. f tmp) n ∙ c.2, ap (λ f. f tmp) v ∙ c.3)
Enqueues-stays s t z l n v st (e_tail tmp) c = c
Enqueues-stays s t z l n v st e_unlock c = l ∙ c

-- A step of the dequeuer that leaves the head alone.
pub dequeuer-Inv :
    {s t : System}
    → t.q ≡ s.q
    → t.e ≡ s.e
    → t.got ≡ s.got
    → t.put ≡ s.put
    → ((a j : ℕ) → s.status a ≡ linked j → t.status a ≡ linked j)
    → ((a : ℕ) → s.status a ≡ own → t.status a ≡ own)
    → Inv s
    → Dequeues t t.d
    → Inv t
dequeuer-Inv {s} {t} q e g p l o inv d = record {
  z = inv.z;
  xs = inv.xs;
  nodes =
      subst (λ gs. Nodes t (length gs) t.q.head inv.z inv.xs) (sym g)
        (subst (λ a. Nodes t (length s.got) a inv.z inv.xs) (sym (ap (λ r. r.head) q))
          (Nodes-Kept {k0 = 0}
            (record {
              status = λ a j le h. l a j h;
              next = λ a j le h. ap (λ (r : Queue). r.next a) q;
              value = λ a j le h. ap (λ (r : Queue). r.value a) q;
            })
            (omega arith) inv.nodes));
  kept = p ∙ inv.kept ∙ ap (λ gs. gs ++ inv.xs) (sym g);
  enqueues = subst (Enqueues t inv.z) (sym e) (
      Enqueues-stays s t inv.z (ap (λ (r : Queue). r.tail) q) (ap (λ (r : Queue). r.next) q)
        (ap (λ (r : Queue). r.value) q) o s.e inv.enqueues);
  dequeues = d;
}
