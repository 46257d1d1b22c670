-- ===== src/Barrier/Threads/Fresh.antt =====
-- barrier.c: `playlock` can be 0 only when a child has passed it in release_playlock.
use mathlib.Core.Path.{subst}
use sysprg.Prelude.{
  ℕ, ◌≤◌, ◌<◌, ◌≡◌, sym, ap, ◌∙◌, ◌⊎◌, inl, inr, update, update_self, update_ne, ℕ_discrete, arith,
}
use sysprg.Prelude.Reach.{Reach, here, Reach-keeps}
use sysprg.Prelude.Sums.{sum}
use sysprg.Barrier.{barrier_init}
use sysprg.Barrier.Threads.{
  Pc, says_before, locks_in, counts_in, plays_in, posts_in, locks_out, counts_out, plays_out,
  posts_out, says_after, finished, System, start, Move, say_before, lock_in, decrement, play_in,
  post_in, lock_out, increment, play_out, post_out, say_after, Step, step,
}
use sysprg.Barrier.Threads.Counts.{inside, Inv, Step-Inv, reached-Inv}

-- In release_playlock past the lock, and behind.
abbrev pub Past : Pc → Type 0
Past says_before = ⊥
Past locks_in = ⊥
Past counts_in = ⊥
Past plays_in = ⊥
Past posts_in = ⊥
Past locks_out = ⊥
Past counts_out = ⊥
Past plays_out = ⊥
Past posts_out = Unit
Past says_after = Unit
Past finished = Unit

abbrev pub players_in : ℕ → System → ℕ
players_in n s = sum n (λ i. inside (s.pc i))

-- `playlock` is free until a child has come through release_playlock.
abbrev pub Fresh : ℕ → System → Type 0
Fresh n s = (1 ≤ s.b.playlock) ⊎ ((j : ℕ) × (j < n) × Past (s.pc j))

Past-moved :
    (n i j : ℕ) (s : System) (x p : Pc)
    → s.pc i ≡ x
    → (Past x → Past p)
    → j < n
    → Past (s.pc j)
    → (k : ℕ) × (k < n) × Past (update s.pc i p k)
Past-moved n i j s x p e keep lt h = elim (ℕ_discrete i j) [
  | yes f ↦
      let old : Past x = subst Past (ap s.pc (sym f) ∙ e) h in
      (j, lt, subst Past (sym (update_self s.pc i) ∙ ap (update s.pc i p) f) (keep old))
  | no ne ↦ (j, lt, subst Past (sym (update_ne s.pc i j p ne)) h)
]

kept :
    (n i : ℕ) (s : System) (x p : Pc)
    → s.pc i ≡ x
    → (Past x → Past p)
    → Fresh n s
    → (1 ≤ s.b.playlock) ⊎ ((k : ℕ) × (k < n) × Past (update s.pc i p k))
kept n i s x p e keep (inl one) = inl one
kept n i s x p e keep (inr (j, lt, h)) = inr (Past-moved n i j s x p e keep lt h)

Move-Fresh : (n i : ℕ) (s t : System) → i < n → Inv n s → Move i s t → Fresh n s → Fresh n t
Move-Fresh n i s _ lt inv (say_before e) h = kept n i s _ _ e (λ b. absurd b) h
Move-Fresh n i s _ lt inv (lock_in k e f) h = kept n i s _ _ e (λ b. absurd b) h
Move-Fresh n i s _ lt inv (decrement e) h = kept n i s _ _ e (λ b. absurd b) h
Move-Fresh n i s _ lt inv (play_in k e f) h = absurd (inv.not_first i e)
Move-Fresh n i s _ lt inv (post_in e) h = kept n i s _ _ e (λ b. absurd b) h
Move-Fresh n i s _ lt inv (lock_out k e f) h = kept n i s _ _ e (λ b. absurd b) h
Move-Fresh n i s _ lt inv (increment e) h = kept n i s _ _ e (λ b. absurd b) h
Move-Fresh n i s _ lt inv (play_out k e f) h = inr (i, lt, subst Past (sym (update_self s.pc i)) tt)
Move-Fresh n i s _ lt inv (post_out e) h = kept n i s _ _ e (λ b. tt) h
Move-Fresh n i s _ lt inv (say_after e) h = kept n i s _ _ e (λ b. tt) h

pub reached-Fresh : (n : ℕ) {s : System} → Reach (Step n) (start n) s → Inv n s × Fresh n s
unfolding start barrier_init
reached-Fresh n r =
    Reach-keeps (Step n) (λ s. Inv n s × Fresh n s)
      (λ s t st h. elim st [
        | step i lt mv ↦ (Step-Inv n s t (step i lt mv) h.0, Move-Fresh n i s t lt h.0 mv h.1)
      ])
      (reached-Inv n here, inl (omega arith)) r
