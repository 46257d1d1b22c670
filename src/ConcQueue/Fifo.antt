-- ===== src/ConcQueue/Fifo.antt =====
-- concqueue.h refines a queue of values: `enqueue` appends, `dequeue` takes the first.
use sysprg.Prelude.{
  ℕ, ◌≡◌, ◌≢◌, refl, sym, ◌∙◌, ap, none, some, List, [], ◌∷◌, ◌++◌, update, update_self, update_ne,
}
use sysprg.Prelude.Int.{ℤ, pos, negsuc}
use sysprg.ConcQueue.{Queue, queue_init, queue_enqueue, queue_dequeue, Dequeued}

-- From node `a` (the dummy in front) the nodes `bs` follow up to the tail; they hold `xs`.
pub data Chain (q : Queue) : ℕ → List ℕ → List ℤ → Type 0 where
  last : {a : ℕ} → q.tail ≡ a → q.next a ≡ none → Chain q a [] []
  link :
      {a b : ℕ} {x : ℤ} {bs : List ℕ} {xs : List ℤ}
      → q.next a ≡ some b
      → q.value b ≡ x
      → Chain q b bs xs
      → Chain q a (b ∷ bs) (x ∷ xs)

-- The address is none of the nodes.
abbrev pub Fresh : ℕ → ℕ → List ℕ → Type 0
Fresh tmp a [] = a ≢ tmp
Fresh tmp a (b ∷ bs) = (a ≢ tmp) × Fresh tmp b bs

pub queue_init-Chain : (q : Queue) (tmp : ℕ) → Chain (queue_init q tmp) tmp [] []
unfolding queue_init
queue_init-Chain q tmp = last refl (update_self q.next tmp)

Fresh-head : {tmp a : ℕ} (bs : List ℕ) → Fresh tmp a bs → a ≢ tmp
Fresh-head [] h = h
Fresh-head (b ∷ bs) (h, rest) = h

module _ (q : Queue) (v : ℤ) (tmp : ℕ) where
  tail-next : {a : ℕ} {bs : List ℕ} {xs : List ℤ} → Chain q a bs xs → q.next q.tail ≡ none
  tail-next (last e n) = ap q.next e ∙ n
  tail-next (link e x c) = tail-next c

  next-other :
      {a b : ℕ}
      → a ≢ tmp
      → q.next a ≡ some b
      → q.next q.tail ≡ none
      → (queue_enqueue q v tmp).next a ≡ some b
  unfolding queue_enqueue
  next-other {a} {b} away e n =
      update_ne (update q.next tmp none) q.tail a (some tmp) (λ same. cc)
      ∙ update_ne q.next tmp a none (λ same. away (sym same))
      ∙ e

  enqueue-Chain :
      {a : ℕ} (bs : List ℕ) {xs : List ℤ}
      → Chain q a bs xs
      → Fresh tmp a bs
      → Chain (queue_enqueue q v tmp) a (bs ++ tmp ∷ []) (xs ++ v ∷ [])
  unfolding queue_enqueue
  enqueue-Chain {a} bs (last e n) away =
      link
        (ap (update (update q.next tmp none) q.tail (some tmp)) (sym e)
          ∙ update_self (update q.next tmp none) q.tail)
        (update_self q.value tmp)
        (last refl (
          update_ne (update q.next tmp none) q.tail tmp (some tmp) (λ same. away (sym e ∙ same))
          ∙ update_self q.next tmp))
  enqueue-Chain {a} (b ∷ bs) (link e x c) (away, rest) =
      link (next-other away e (tail-next c))
        (update_ne q.value tmp b v (λ same. Fresh-head bs rest (sym same)) ∙ x)
        (enqueue-Chain bs c rest)

  -- If the queue holds `xs` and the block that `malloc` gives is none of its nodes, then after
  -- `Queue_Enqueue` it holds `xs` with the value at its end, in the same nodes and the new one.
  pub queue_enqueue-Chain :
      (bs : List ℕ) (xs : List ℤ)
      → Chain q q.head bs xs
      → Fresh tmp q.head bs
      → Chain (queue_enqueue q v tmp) (queue_enqueue q v tmp).head (bs ++ tmp ∷ []) (xs ++ v ∷ [])
  unfolding queue_enqueue
  queue_enqueue-Chain bs xs c away = enqueue-Chain bs c away

-- What `Queue_Dequeue` does to a queue that holds the values.
abbrev pub Takes : Queue → List ℕ → List ℤ → Dequeued → Type 0
Takes q bs [] r = (r.rv ≡ negsuc 0) × (r.stored ≡ none) × (r.freed ≡ none) × (r.queue ≡ q)
Takes q [] (x ∷ xs) r = ⊥
Takes q (b ∷ bs) (x ∷ xs) r =
    (r.rv ≡ pos 0)
    × (r.stored ≡ some x)
    × (r.freed ≡ some q.head)
    × Chain r.queue b bs xs
    × (r.queue.head ≡ b)

moved :
    {q : Queue} {a h : ℕ} {bs : List ℕ} {xs : List ℤ}
    → Chain q a bs xs
    → Chain (record q { head = h }) a bs xs
moved (last e n) = last e n
moved (link e x c) = link e x (moved c)

-- On an empty queue `Queue_Dequeue` returns -1 and changes nothing; otherwise it returns 0, stores
-- the first value, frees the old dummy, and leaves the other values in a queue whose dummy is the
-- node of the first.
pub queue_dequeue-Takes :
    (q : Queue) (bs : List ℕ) (xs : List ℤ) → Chain q q.head bs xs → Takes q bs xs (queue_dequeue q)
unfolding queue_dequeue
queue_dequeue-Takes q bs xs (last e n) = rw (n, queue_dequeue) (refl, refl, refl, refl)
queue_dequeue-Takes q bs xs (link e x c) =
    rw (e, queue_dequeue) (refl, ap some x, refl, moved c, refl)
