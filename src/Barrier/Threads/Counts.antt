-- ===== src/Barrier/Threads/Counts.antt =====
-- barrier.c: `players` counts the children inside, and one of them at most has `lock`.
use mathlib.Core.Path.{subst}
use sysprg.Prelude.{
  ℕ, zero, suc, ◌+◌, ◌<◌, ◌≡◌, ◌≢◌, refl, sym, ap, ◌∙◌, ◌⊎◌, inl, inr, update, update_self,
  update_ne, ℕ_discrete, arith,
}
use sysprg.Prelude.Int.{pos_part, neg_part, ◌+ℤ◌, ◌-ℤ◌}
use sysprg.Prelude.Reach.{Reach, Reach-keeps}
use sysprg.Prelude.Sums.{sum_moved, sum, sum_member, sum_two}
use sysprg.Barrier.{Barrier, barrier_init}
use sysprg.Barrier.Threads.{
  Pc, says_before, locks_in, counts_in, plays_in, posts_in, locks_out, counts_out, plays_out,
  posts_out, says_after, finished, System, start, counted_in, counted_out, count_in, count_out,
  Move, say_before, lock_in, decrement, play_in, post_in, lock_out, increment, play_out, post_out,
  say_after, Step, step,
}

-- 1 for a child that has decremented `players` and not incremented it.
abbrev pub inside : Pc → ℕ
inside says_before = 0
inside locks_in = 0
inside counts_in = 0
inside plays_in = 1
inside posts_in = 1
inside locks_out = 1
inside counts_out = 1
inside plays_out = 0
inside posts_out = 0
inside says_after = 0
inside finished = 0

-- 1 for a child that has `lock`.
abbrev pub holds : Pc → ℕ
holds says_before = 0
holds locks_in = 0
holds counts_in = 1
holds plays_in = 1
holds posts_in = 1
holds locks_out = 0
holds counts_out = 1
holds plays_out = 1
holds posts_out = 1
holds says_after = 0
holds finished = 0

pub record Inv (n : ℕ) (s : System) : Type 0 where
  pub one_lock : s.b.lock + sum n (λ i. holds (s.pc i)) ≡ 1
  pub no_more : pos_part s.b.players ≡ 0
  pub players : neg_part s.b.players ≡ sum n (λ i. inside (s.pc i))
  pub not_first : (i : ℕ) → s.pc i ≢ plays_in

count_in_lem :
    (b : Barrier)
    → pos_part b.players ≡ 0
    → (counted_in (count_in b) ≡ posts_in)
      × (pos_part (count_in b).players ≡ 0)
      × (neg_part (count_in b).players ≡ neg_part b.players + 1)
unfolding ◌-ℤ◌
count_in_lem b h = ground arith

pub count_out_lem :
    (b : Barrier)
    → pos_part b.players ≡ 0
    → 0 < neg_part b.players
    → (pos_part (count_out b).players ≡ 0)
      × (neg_part (count_out b).players + 1 ≡ neg_part b.players)
      × (((counted_out (count_out b) ≡ plays_out) × (neg_part b.players ≡ 1))
          ⊎ ((counted_out (count_out b) ≡ posts_out) × (1 < neg_part b.players)))
unfolding ◌+ℤ◌
count_out_lem b h lt = ground arith

-- A child goes from its place to `p` and leaves `b'`.
moved-Inv :
    (n j : ℕ) (s : System) (b' : Barrier) (p : Pc)
    → j < n
    → b'.lock + holds p ≡ s.b.lock + holds (s.pc j)
    → pos_part b'.players ≡ 0
    → neg_part b'.players + inside (s.pc j) ≡ neg_part s.b.players + inside p
    → p ≢ plays_in
    → Inv n s
    → Inv n (record { b = b'; pc = update s.pc j p })
moved-Inv n j s b' p lt l c k ne inv = record {
  one_lock = omega (arith, sum_moved holds n j s.pc p lt, l, inv.one_lock);
  no_more = c;
  players = omega (arith, sum_moved inside n j s.pc p lt, k, inv.players);
  not_first = λ i e. elim (ℕ_discrete j i) [
    | yes f ↦ ne (sym (update_self s.pc j) ∙ ap (update s.pc j p) f ∙ e)
    | no g ↦ inv.not_first i (sym (update_ne s.pc j i p g) ∙ e)
  ];
}

-- A child that is about to increment `players` is counted.
pub player :
    (n j : ℕ) (s : System) → j < n → s.pc j ≡ counts_out → Inv n s → 0 < neg_part s.b.players
player n j s lt e inv =
    let one : inside (s.pc j) ≡ 1 = ap inside e in
    omega (arith, one, inv.players, sum_member n j (λ i. inside (s.pc i)) lt)

pub Move-Inv : (n j : ℕ) (s t : System) → j < n → Move j s t → Inv n s → Inv n t
Move-Inv n j s _ lt (say_before e) inv =
    moved-Inv n j s s.b locks_in lt (rw e refl) inv.no_more (rw e refl) (λ f. cc) inv
Move-Inv n j s _ lt (lock_in k e f) inv =
    moved-Inv n j s _ counts_in lt (rw (e, f) (omega arith)) inv.no_more (rw e refl) (λ g. cc) inv
Move-Inv n j s _ lt (decrement e) inv =
    let (to, none_more, one_more) = count_in_lem s.b inv.no_more in
    subst (λ p. Inv n (record { b = count_in s.b; pc = update s.pc j p })) (sym to)
      (moved-Inv n j s (count_in s.b) posts_in lt (rw e refl) none_more
        (rw e (omega (arith, one_more))) (λ g. cc) inv)
Move-Inv n j s _ lt (play_in k e f) inv = absurd (inv.not_first j e)
Move-Inv n j s _ lt (post_in e) inv =
    moved-Inv n j s _ locks_out lt (rw e (omega arith)) inv.no_more (rw e refl) (λ g. cc) inv
Move-Inv n j s _ lt (lock_out k e f) inv =
    moved-Inv n j s _ counts_out lt (rw (e, f) (omega arith)) inv.no_more (rw e refl) (λ g. cc) inv
Move-Inv n j s _ lt (increment e) inv =
    let (none_more, one_less, to) = count_out_lem s.b inv.no_more (player n j s lt e inv) in
    elim to [
      | inl (f, one) ↦
          subst (λ r. Inv n (record { b = count_out s.b; pc = update s.pc j r })) (sym f)
            (moved-Inv n j s (count_out s.b) plays_out lt (rw e refl) none_more
              (rw e (omega (arith, one_less))) (λ g. cc) inv)
      | inr (f, more) ↦
          subst (λ r. Inv n (record { b = count_out s.b; pc = update s.pc j r })) (sym f)
            (moved-Inv n j s (count_out s.b) posts_out lt (rw e refl) none_more
              (rw e (omega (arith, one_less))) (λ g. cc) inv)
    ]
Move-Inv n j s _ lt (play_out k e f) inv =
    moved-Inv n j s _ posts_out lt (rw e refl) inv.no_more (rw e refl) (λ g. cc) inv
Move-Inv n j s _ lt (post_out e) inv =
    moved-Inv n j s _ says_after lt (rw e (omega arith)) inv.no_more (rw e refl) (λ g. cc) inv
Move-Inv n j s _ lt (say_after e) inv =
    moved-Inv n j s s.b finished lt (rw e refl) inv.no_more (rw e refl) (λ g. cc) inv

sum_zeros : (n : ℕ) → sum n (λ i. 0) ≡ 0
sum_zeros zero = refl
sum_zeros (suc n) = omega (arith, sum_zeros n)

start-Inv : (n : ℕ) → Inv n (start n)
unfolding start barrier_init
start-Inv n = record {
  one_lock = omega (arith, sum_zeros n);
  no_more = refl;
  players = omega (arith, sum_zeros n);
  not_first = λ i e. cc;
}

pub Step-Inv : (n : ℕ) (s t : System) → Step n s t → Inv n s → Inv n t
Step-Inv n s t (step j lt mv) inv = Move-Inv n j s t lt mv inv

pub reached-Inv : (n : ℕ) {s : System} → Reach (Step n) (start n) s → Inv n s
reached-Inv n r = Reach-keeps (Step n) (Inv n) (Step-Inv n) (start-Inv n) r

-- `lock` keeps all others out.
pub alone :
    (n i j : ℕ) (s : System)
    → Inv n s
    → i < n
    → j < n
    → holds (s.pc i) ≡ 1
    → holds (s.pc j) ≡ 1
    → i ≡ j
alone n i j s inv li lj hi hj = elim (ℕ_discrete i j) [
  | yes e ↦ e
  | no ne ↦
      absurd (omega (arith, sum_two n i j (λ k. holds (s.pc k)) li lj ne, hi, hj, inv.one_lock))
]
