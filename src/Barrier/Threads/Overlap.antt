-- ===== src/Barrier/Threads/Overlap.antt =====
-- barrier.c: children that block for good, and children that are all inside at one time.
use sysprg.Prelude.{ℕ, ◌≡◌, ◌≢◌, sym, ap, ◌∙◌, update, update_ne, ℕ_discrete, arith}
use sysprg.Prelude.Reach.{Reach, Reach-keeps}
use sysprg.Barrier.Threads.{
  Pc, plays_out, System, Move, say_before, lock_in, decrement, play_in, post_in, lock_out,
  increment, play_out, post_out, say_after, Step, step,
}
use sysprg.Barrier.Threads.Progress.{Blocked}

-- Child `j` waits for `playlock`, which is 0.
record Waits (j : ℕ) (s : System) : Type 0 where
  place : s.pc j ≡ plays_out
  empty : s.b.playlock ≡ 0

-- The step of a child from another place moves another child.
stays :
    (i j : ℕ) (s : System) (x p : Pc)
    → s.pc i ≡ x
    → x ≢ plays_out
    → s.pc j ≡ plays_out
    → update s.pc i p j ≡ plays_out
stays i j s x p e ne w = elim (ℕ_discrete i j) [
  | yes f ↦ absurd (ne (sym e ∙ ap s.pc f ∙ w))
  | no g ↦ update_ne s.pc i j p g ∙ w
]

Move-Waits : (i j : ℕ) (s t : System) → Move i s t → Waits j s → Waits j t
Move-Waits i j s _ (say_before e) w = record {
  place = stays i j s _ _ e (λ f. cc) w.place;
  empty = w.empty;
}
Move-Waits i j s _ (lock_in k e f) w = record {
  place = stays i j s _ _ e (λ f. cc) w.place;
  empty = w.empty;
}
Move-Waits i j s _ (decrement e) w = record {
  place = stays i j s _ _ e (λ f. cc) w.place;
  empty = w.empty;
}
Move-Waits i j s _ (play_in k e f) w = absurd (omega (arith, f, w.empty))
Move-Waits i j s _ (post_in e) w = record {
  place = stays i j s _ _ e (λ f. cc) w.place;
  empty = w.empty;
}
Move-Waits i j s _ (lock_out k e f) w = record {
  place = stays i j s _ _ e (λ f. cc) w.place;
  empty = w.empty;
}
Move-Waits i j s _ (increment e) w = record {
  place = stays i j s _ _ e (λ f. cc) w.place;
  empty = w.empty;
}
Move-Waits i j s _ (play_out k e f) w = absurd (omega (arith, f, w.empty))
Move-Waits i j s _ (post_out e) w = record {
  place = stays i j s _ _ e (λ f. cc) w.place;
  empty = w.empty;
}
Move-Waits i j s _ (say_after e) w = record {
  place = stays i j s _ _ e (λ f. cc) w.place;
  empty = w.empty;
}

-- A child that waits for `playlock` when that is 0 waits for ever.
pub Blocked-stays :
    (n j : ℕ) (s t : System)
    → Blocked n j s
    → Reach (Step n) s t
    → (t.pc j ≡ plays_out) × (t.b.playlock ≡ 0)
Blocked-stays n j s t (lt, e, f, g) r =
    let w =
      Reach-keeps (Step n) (Waits j) (λ u v st w. elim st [ step i l mv ↦ Move-Waits i j u v mv w ])
        (record { place = e; empty = g }) r in
    (w.place, w.empty)
