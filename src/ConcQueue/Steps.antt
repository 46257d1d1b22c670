-- ===== src/ConcQueue/Steps.antt =====
-- concqueue.h: every step of the two calls keeps the invariant.
use sysprg.Prelude.{
  ℕ, suc, ◌≡◌, refl, sym, ap, ◌∙◌, none, some, [], ◌∷◌, ◌++◌, update, update_self, arith, length,
  append_assoc, length-append,
}
use mathlib.Core.Path.{subst}
use sysprg.Prelude.Int.{ℤ}
use sysprg.ConcQueue.Calls.{
  e_idle, e_link, e_tail, Dequeuer, d_idle, d_read, d_value, d_head, d_unlock, dead, own, linked,
  removed, System, Step, enqueue, link, set_tail, unlock_tail, dequeue, saw_none, saw_node,
  read_value, set_head, unlock_head, free_node,
}
use sysprg.ConcQueue.Nodes.{
  Nodes, first_status, last_next, Kept, Nodes-Kept, Nodes-append, Second, Nodes-Second,
}
use sysprg.ConcQueue.Invariant.{
  Enqueues, Dequeues, Inv, Quiet, Quiet-Dequeues, Quiet-Inv, unchanged, Enqueues-stays,
  dequeuer-Inv,
}

enqueue-Inv :
    (s : System) (inv : Inv s) (tmp : ℕ) (v : ℤ)
    → s.e ≡ e_idle
    → s.status tmp ≡ dead
    → Inv (record s {
      q = record s.q { next = update s.q.next tmp none; value = update s.q.value tmp v };
      status = update s.status tmp own;
      e = e_link tmp v;
    })
enqueue-Inv s inv tmp v e f =
    let h : Quiet s (record s {
      q = record s.q { next = update s.q.next tmp none; value = update s.q.value tmp v };
      status = update s.status tmp own;
      e = e_link tmp v;
    }) =
      record {
        head = refl;
        got = refl;
        put = refl;
        nodes = record {
          status = λ a j le h. ground arith;
          next = λ a j le h. ground arith;
          value = λ a j le h. ground arith;
        };
        gone = λ a h. ground arith;
      } in
    Quiet-Inv h inv (ground (arith, inv.enqueues), ground arith, ground arith, ground arith)
      (Quiet-Dequeues h inv s.d inv.dequeues)

module _ (s : System) (inv : Inv s) (tmp : ℕ) (v : ℤ) (c : Enqueues s inv.z (e_link tmp v)) where
  abbrev with_link : System
  with_link = record s {
    q = record s.q { next = update s.q.next s.q.tail (some tmp) };
    status = update s.status tmp (linked (suc (length s.put)));
    e = e_tail tmp;
    put = s.put ++ v ∷ [];
  }

  -- The tail has no next node, so that no node with a next one is changed.
  not_tail : {a n : ℕ} → s.q.next a ≡ some n → with_link.q.next a ≡ some n
  not_tail {a} {n} e = ground (arith, c, last_next inv.nodes)

  link-Dequeues : (d : Dequeuer) → Dequeues s d → Dequeues with_link d
  link-Dequeues d_idle h = tt
  link-Dequeues d_read h = tt
  link-Dequeues (d_value a n) h = (h.0, not_tail h.1, ground (arith, c))
  link-Dequeues (d_head a n w) h = (h.0, not_tail h.1, ground (arith, c), h.3)
  link-Dequeues (d_unlock a) h = ground (arith, c)

  link-Inv : Inv with_link
  link-Inv = record {
    z = tmp;
    xs = inv.xs ++ v ∷ [];
    nodes =
        Nodes-append tmp (suc (length s.put)) v
          (omega (arith, ap length inv.kept, length-append s.got inv.xs))
          (λ a. ap (λ w. update s.q.next w (some tmp) a) c.0) (λ a. refl) (λ a. refl) c.1 c.2 c.3
          inv.nodes;
    kept = ap (λ l. l ++ v ∷ []) inv.kept ∙ append_assoc s.got inv.xs (v ∷ []);
    enqueues = refl;
    dequeues = link-Dequeues s.d inv.dequeues;
  }

module _ (s : System) (inv : Inv s) (tmp n : ℕ) (v : ℤ) (c : Dequeues s (d_head tmp n v)) where
  abbrev with_head : System
  with_head = record s {
    q = record s.q { head = n };
    status = update s.status tmp removed;
    d = d_unlock tmp;
    got = s.got ++ v ∷ [];
  }

  old_status : s.status tmp ≡ linked (length s.got)
  old_status = ap s.status (sym c.0) ∙ first_status inv.nodes

  second : Second s (length s.got) n inv.z inv.xs
  second = Nodes-Second (ap s.q.next c.0 ∙ c.1) inv.nodes

  later-Kept : Kept (suc (length s.got)) s with_head
  later-Kept = record {
    status = λ a j le h. ground (arith, old_status);
    next = λ a j le h. refl;
    value = λ a j le h. refl;
  }

  set_head-Inv : Inv with_head
  set_head-Inv =
      let more : suc (length s.got) ≡ length (s.got ++ v ∷ []) =
        omega (arith, length-append s.got (v ∷ [])) in
      record {
        z = inv.z;
        xs = second.rest;
        nodes =
            subst (λ k. Nodes with_head k n inv.z second.rest) more
              (Nodes-Kept later-Kept (omega arith) second.nodes);
        kept =
            inv.kept
            ∙ ap (λ l. s.got ++ l) (second.values ∙ ap (λ x. x ∷ second.rest) c.3)
            ∙ sym (append_assoc s.got (v ∷ []) second.rest);
        enqueues =
            Enqueues-stays s with_head inv.z refl refl refl (λ a h. ground (arith, old_status)) s.e
              inv.enqueues;
        dequeues = update_self s.status tmp;
      }

pub Step-Inv : (s t : System) → Step s t → Inv s → Inv t
Step-Inv s t (enqueue tmp v e f) inv = enqueue-Inv s inv tmp v e f
Step-Inv s t (link tmp v e) inv = link-Inv s inv tmp v (subst (Enqueues s inv.z) e inv.enqueues)
Step-Inv s t (set_tail tmp e) inv =
    let h : Quiet s t = record {
      head = refl;
      got = refl;
      put = refl;
      nodes = unchanged refl refl refl;
      gone = λ a h. h;
    } in
    Quiet-Inv h inv (ground (arith, inv.enqueues)) (Quiet-Dequeues h inv s.d inv.dequeues)
Step-Inv s t (unlock_tail e) inv =
    let h : Quiet s t = record {
      head = refl;
      got = refl;
      put = refl;
      nodes = unchanged refl refl refl;
      gone = λ a h. h;
    } in
    Quiet-Inv h inv (ground (arith, inv.enqueues)) (Quiet-Dequeues h inv s.d inv.dequeues)
Step-Inv s t (dequeue e) inv = dequeuer-Inv refl refl refl refl (λ a j h. h) (λ a h. h) inv tt
Step-Inv s t (saw_none e n) inv = dequeuer-Inv refl refl refl refl (λ a j h. h) (λ a h. h) inv tt
Step-Inv s t (saw_node m e n) inv =
    dequeuer-Inv refl refl refl refl (λ a j h. h) (λ a h. h) inv
      (refl, n, first_status (Nodes-Second n inv.nodes).nodes)
Step-Inv s t (read_value tmp n e) inv =
    dequeuer-Inv refl refl refl refl (λ a j h. h) (λ a h. h) inv
      (at_value (subst (Dequeues s) e inv.dequeues))
  where
    at_value :
        Dequeues s (d_value tmp n)
        → Dequeues (record s { d = d_head tmp n (s.q.value n) }) (d_head tmp n (s.q.value n))
    at_value c = (c.0, c.1, c.2, refl)
Step-Inv s t (set_head tmp n v e) inv =
    set_head-Inv s inv tmp n v (subst (Dequeues s) e inv.dequeues)
Step-Inv s t (unlock_head tmp e) inv =
    dequeuer-Inv refl refl refl refl (λ a j h. ground (arith, inv.dequeues))
      (λ a h. ground (arith, inv.dequeues)) inv tt
Step-Inv s t (free_node a e) inv =
    let h : Quiet s (record s { status = update s.status a dead }) = record {
      head = refl;
      got = refl;
      put = refl;
      nodes = record {
        status = λ b j le h. ground arith;
        next = λ b j le h. refl;
        value = λ b j le h. refl;
      };
      gone = λ b h. ground arith;
    } in
    Quiet-Inv h inv
      (Enqueues-stays s (record s { status = update s.status a dead }) inv.z refl refl refl
        (λ b h. ground arith) s.e inv.enqueues)
      (Quiet-Dequeues h inv s.d inv.dequeues)
