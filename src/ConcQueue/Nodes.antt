-- ===== src/ConcQueue/Nodes.antt =====
-- concqueue.h: the nodes from the head to the last, while calls overlap.
use sysprg.Prelude.{
  ℕ, suc, ◌+◌, ◌≤◌, ◌≡◌, refl, sym, ap, ◌∙◌, none, some, List, [], ◌∷◌, ◌++◌, update, arith, length,
}
use sysprg.Prelude.Int.{ℤ}
use mathlib.Core.Path.{subst}
use sysprg.ConcQueue.Calls.{System, linked, own}

-- The nodes `a` and after up to `z` are numbers `k` and on; those after `a` hold `xs`.
pub data Nodes (s : System) : ℕ → ℕ → ℕ → List ℤ → Type 0 where
  last : {k a z : ℕ} → s.status a ≡ linked k → s.q.next a ≡ none → a ≡ z → Nodes s k a z []
  link :
      {k a b z : ℕ} {x : ℤ} {xs : List ℤ}
      → s.status a ≡ linked k
      → s.q.next a ≡ some b
      → s.q.value b ≡ x
      → Nodes s (suc k) b z xs
      → Nodes s k a z (x ∷ xs)

pub first_status : {s : System} {k a z : ℕ} {xs : List ℤ} → Nodes s k a z xs → s.status a ≡ linked k
first_status (last e n f) = e
first_status (link e n x c) = e

pub last_next : {s : System} {k a z : ℕ} {xs : List ℤ} → Nodes s k a z xs → s.q.next z ≡ none
last_next {s} (last e n f) = ap s.q.next (sym f) ∙ n
last_next (link e n x c) = last_next c

pub last_status :
    {s : System} {k a z : ℕ} {xs : List ℤ} → Nodes s k a z xs → s.status z ≡ linked (k + length xs)
last_status {s} {k} (last e n f) =
    let same : k + 0 ≡ k = omega arith in ap s.status (sym f) ∙ e ∙ ap linked (sym same)
last_status {k} (link {xs} e n x c) =
    let same : suc k + length xs ≡ k + suc (length xs) = omega arith in
    last_status c ∙ ap linked same

-- Nothing is changed at the nodes from number `k` on.
pub record Kept (k : ℕ) (s t : System) : Type 0 where
  pub status : (a j : ℕ) → k ≤ j → s.status a ≡ linked j → t.status a ≡ linked j
  pub next : (a j : ℕ) → k ≤ j → s.status a ≡ linked j → t.q.next a ≡ s.q.next a
  pub value : (a j : ℕ) → k ≤ j → s.status a ≡ linked j → t.q.value a ≡ s.q.value a

pub Nodes-Kept :
    {s t : System} {k0 k a z : ℕ} {xs : List ℤ}
    → Kept k0 s t
    → k0 ≤ k
    → Nodes s k a z xs
    → Nodes t k a z xs
Nodes-Kept {k} {a} h le (last e n f) = last (h.status a k le e) (h.next a k le e ∙ n) f
Nodes-Kept {k} {a} h le (link {b} e n x c) =
    link (h.status a k le e) (h.next a k le e ∙ n)
      (h.value b (suc k) (omega arith) (first_status c) ∙ x) (Nodes-Kept h (omega arith) c)

-- A node of one's own is put behind the last.
pub Nodes-append :
    {s t : System} {k a z : ℕ} {xs : List ℤ} (tmp number : ℕ) (v : ℤ)
    → number ≡ suc (k + length xs)
    → ((a : ℕ) → t.q.next a ≡ update s.q.next z (some tmp) a)
    → ((a : ℕ) → t.q.value a ≡ s.q.value a)
    → ((a : ℕ) → t.status a ≡ update s.status tmp (linked number) a)
    → s.status tmp ≡ own
    → s.q.next tmp ≡ none
    → s.q.value tmp ≡ v
    → Nodes s k a z xs
    → Nodes t k a tmp (xs ++ v ∷ [])
Nodes-append {s} {t} {k} {a} {z} tmp number v m hn hv hs o n0 v0 (last e n f) =
    let number_1 : number ≡ suc k = omega arith in
    link (ground (arith, hs a)) (ground (arith, hn a)) (ground (arith, hv tmp))
      (last (ground (arith, hs tmp)) (ground (arith, hn tmp)) refl)
Nodes-append {s} {t} {k} {a} {z} tmp number v m hn hv hs o n0 v0 (link {b} e n x c) =
    link (ground (arith, hs a)) (ground (arith, hn a, last_next c)) (hv b ∙ x)
      (Nodes-append tmp number v (omega arith) hn hv hs o n0 v0 c)

-- The first node with a next one, and the nodes from that on.
pub record Second (s : System) (k n z : ℕ) (xs : List ℤ) : Type 0 where
  pub rest : List ℤ
  pub values : xs ≡ s.q.value n ∷ rest
  pub nodes : Nodes s (suc k) n z rest

pub Nodes-Second :
    {s : System} {k a z n : ℕ} {xs : List ℤ}
    → s.q.next a ≡ some n
    → Nodes s k a z xs
    → Second s k n z xs
Nodes-Second h (last e m f) = absurd (cc)
Nodes-Second {s} {k} {a} {z} {n} h (link {b} {xs} e m x c) =
    let same : b ≡ n = cc in
    record {
      rest = xs;
      values = ap (λ y. y ∷ xs) (sym x ∙ ap s.q.value same);
      nodes = subst (λ c. Nodes s (suc k) c z xs) same c;
    }

-- With no next node there are no values.
pub Nodes-none :
    {s : System} {k a z : ℕ} {xs : List ℤ} → s.q.next a ≡ none → Nodes s k a z xs → xs ≡ []
Nodes-none h (last e m f) = refl
Nodes-none h (link e m x c) = absurd (cc)
