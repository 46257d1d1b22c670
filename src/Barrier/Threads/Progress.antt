-- ===== src/Barrier/Threads/Progress.antt =====
-- barrier.c: the program ends or blocks, and where it blocks.
use sysprg.Prelude.{
  ℕ, zero, suc, ◌*◌, ◌≤◌, ◌<◌, ◌≡◌, refl, sym, ap, ◌∙◌, ◌⊎◌, inl, inr, update, ℕ_discrete, arith,
  Bool-cases,
}
use sysprg.Prelude.Reach.{Reach, steps, steps_bounded}
use sysprg.Prelude.Sums.{sum_moved, sum, sum_member, sum_some}
use sysprg.Barrier.{Barrier, is}
use sysprg.Barrier.Threads.{
  Pc, says_before, locks_in, counts_in, plays_in, posts_in, locks_out, counts_out, plays_out,
  posts_out, says_after, finished, System, start, counted_in, counted_out, count_in, count_out,
  Move, say_before, lock_in, decrement, play_in, post_in, lock_out, increment, play_out, post_out,
  say_after, Step, step,
}
use sysprg.Barrier.Threads.Counts.{holds, Inv, reached-Inv}

-- The steps that a child has left, at most.
abbrev rank : Pc → ℕ
rank says_before = 10
rank locks_in = 9
rank counts_in = 8
rank plays_in = 7
rank posts_in = 6
rank locks_out = 5
rank counts_out = 4
rank plays_out = 3
rank posts_out = 2
rank says_after = 1
rank finished = 0

abbrev left : ℕ → System → ℕ
left n s = sum n (λ i. rank (s.pc i))

left_moved :
    (n j : ℕ) (s : System) (p : Pc)
    → j < n
    → rank p < rank (s.pc j)
    → sum n (λ i. rank (update s.pc j p i)) < left n s
left_moved n j s p lt h = omega (arith, sum_moved rank n j s.pc p lt, h)

counted_in-rank : (b : Barrier) → rank (counted_in b) < 8
counted_in-rank b = elim (Bool-cases (is 1 b.players)) [
  | inl e ↦ rw e (omega arith)
  | inr e ↦ rw e (omega arith)
]

counted_out-rank : (b : Barrier) → rank (counted_out b) < 4
counted_out-rank b = elim (Bool-cases (is 0 b.players)) [
  | inl e ↦ rw e (omega arith)
  | inr e ↦ rw e (omega arith)
]

Move-left : (n j : ℕ) (s t : System) → j < n → Move j s t → left n t < left n s
Move-left n j s _ lt (say_before e) = left_moved n j s _ lt (rw e (omega arith))
Move-left n j s _ lt (lock_in k e f) = left_moved n j s _ lt (rw e (omega arith))
Move-left n j s _ lt (decrement e) = left_moved n j s _ lt (rw e (counted_in-rank (count_in s.b)))
Move-left n j s _ lt (play_in k e f) = left_moved n j s _ lt (rw e (omega arith))
Move-left n j s _ lt (post_in e) = left_moved n j s _ lt (rw e (omega arith))
Move-left n j s _ lt (lock_out k e f) = left_moved n j s _ lt (rw e (omega arith))
Move-left n j s _ lt (increment e) = left_moved n j s _ lt (rw e (counted_out-rank (count_out s.b)))
Move-left n j s _ lt (play_out k e f) = left_moved n j s _ lt (rw e (omega arith))
Move-left n j s _ lt (post_out e) = left_moved n j s _ lt (rw e (omega arith))
Move-left n j s _ lt (say_after e) = left_moved n j s _ lt (rw e (omega arith))

-- What child `j` can do now.
data Stands (n j : ℕ) (s : System) : Type 0 where
  moves : {t : System} → Step n s t → Stands n j s
  ended : s.pc j ≡ finished → Stands n j s
  kept_out : s.b.lock ≡ 0 → holds (s.pc j) ≡ 0 → Stands n j s
  stuck : s.pc j ≡ plays_out → s.b.playlock ≡ 0 → Stands n j s

pub ℕ-cases : (n : ℕ) → (n ≡ 0) ⊎ ((k : ℕ) × (n ≡ suc k))
ℕ-cases zero = inl refl
ℕ-cases (suc k) = inr (k, refl)

stands : (n j : ℕ) (s : System) (p : Pc) → s.pc j ≡ p → j < n → Inv n s → Stands n j s
stands n j s says_before e lt inv = moves (step j lt (say_before e))
stands n j s locks_in e lt inv = elim (ℕ-cases s.b.lock) [
  | inl f ↦ kept_out f (ap holds e)
  | inr (k, f) ↦ moves (step j lt (lock_in k e f))
]
stands n j s counts_in e lt inv = moves (step j lt (decrement e))
stands n j s plays_in e lt inv = absurd (inv.not_first j e)
stands n j s posts_in e lt inv = moves (step j lt (post_in e))
stands n j s locks_out e lt inv = elim (ℕ-cases s.b.lock) [
  | inl f ↦ kept_out f (ap holds e)
  | inr (k, f) ↦ moves (step j lt (lock_out k e f))
]
stands n j s counts_out e lt inv = moves (step j lt (increment e))
stands n j s plays_out e lt inv = elim (ℕ-cases s.b.playlock) [
  | inl f ↦ stuck e f
  | inr (k, f) ↦ moves (step j lt (play_out k e f))
]
stands n j s posts_out e lt inv = moves (step j lt (post_out e))
stands n j s says_after e lt inv = moves (step j lt (say_after e))
stands n j s finished e lt inv = ended e

-- Child `j` waits for `playlock` with `lock` taken, and both are 0.
abbrev pub Blocked : ℕ → ℕ → System → Type 0
Blocked n j s = (j < n) × (s.pc j ≡ plays_out) × (s.b.lock ≡ 0) × (s.b.playlock ≡ 0)

abbrev pub AllFinished : ℕ → System → Type 0
AllFinished n s = (j : ℕ) → j < n → s.pc j ≡ finished

abbrev pub Goes : ℕ → System → Type 0
Goes n s = ((t : System) × Step n s t) ⊎ ((j : ℕ) × Blocked n j s)

stuck-Goes :
    (n j : ℕ) (s : System) → Inv n s → j < n → s.pc j ≡ plays_out → s.b.playlock ≡ 0 → Goes n s
stuck-Goes n j s inv lt e f =
    let one : holds (s.pc j) ≡ 1 = ap holds e in
    let no_lock : s.b.lock ≡ 0 =
      omega (arith, one, inv.one_lock, sum_member n j (λ i. holds (s.pc i)) lt) in
    inr (j, (lt, e, no_lock, f))

holder-Goes : (n : ℕ) (s : System) → Inv n s → s.b.lock ≡ 0 → Goes n s
holder-Goes n s inv f =
    let (j, lt, has) = sum_some n (λ i. holds (s.pc i)) (omega (arith, inv.one_lock, f)) in
    elim (stands n j s (s.pc j) refl lt inv) [
      | moves st ↦ inl (_, st)
      | ended e ↦ let none : holds (s.pc j) ≡ 0 = ap holds e in absurd (omega (arith, none, has))
      | kept_out g none ↦ absurd (omega (arith, none, has))
      | stuck e g ↦ stuck-Goes n j s inv lt e g
    ]

scan : (n k : ℕ) (s : System) → Inv n s → k ≤ n → ((j : ℕ) → j < k → s.pc j ≡ finished) ⊎ Goes n s
scan n zero s inv le = inl (λ j lt. absurd (omega arith))
scan n (suc k) s inv le = elim (scan n k s inv (omega arith)) [
  | inr goes ↦ inr goes
  | inl all ↦ elim (stands n k s (s.pc k) refl (omega arith) inv) [
    | moves st ↦ inr (inl (_, st))
    | ended e ↦ inl (λ j lt. elim (ℕ_discrete k j) [
      | yes f ↦ ap s.pc (sym f) ∙ e
      | no ne ↦ all j (omega arith)
    ])
    | kept_out f none ↦ inr (holder-Goes n s inv f)
    | stuck e f ↦ inr (stuck-Goes n k s inv (omega arith) e f)
  ]
]

sum_tens : (n : ℕ) → sum n (λ i. 10) ≡ 10 * n
sum_tens zero = omega arith
sum_tens (suc n) = omega (arith, sum_tens n)

left-start : (n : ℕ) → left n (start n) ≡ 10 * n
unfolding start
left-start n = sum_tens n

pub goes_on : (n : ℕ) (s : System) → Inv n s → AllFinished n s ⊎ Goes n s
goes_on n s inv = scan n n s inv (omega arith)

-- A run of the `n` children has 10 steps for each at most, and goes on until all have finished, or
-- until one of them waits in release_playlock for `playlock`, which is 0, and has `lock`.
pub barrier_ends :
    (n : ℕ) (s : System) (r : Reach (Step n) (start n) s)
    → (AllFinished n s ⊎ Goes n s) × (steps (Step n) r ≤ 10 * n)
barrier_ends n s r = (
  goes_on n s (reached-Inv n r),
  omega (
    arith,
    left-start n,
    steps_bounded (Step n) (λ t. Unit) (left n) (λ t u st p. tt)
        (λ t u st p. elim st [ step j lt mv ↦ Move-left n j t u lt mv ]) tt r,
  ),
)
