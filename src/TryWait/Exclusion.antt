-- ===== src/TryWait/Exclusion.antt =====
-- vector-try-wait.c: who has which mutex.
use mathlib.Core.Logic.{if_pos, if_neg}
use sysprg.Prelude.{
  ◌≤◌, update_ne, ℕ, ◌+◌, ◌<◌, ◌≡◌, ◌≢◌, refl, ◌∙◌, Bool, true, false, some, ◌==◌, ◌||◌, update,
  ℕ_discrete, arith,
}
use sysprg.Prelude.Reach.{Reach, Reach-keeps}
use sysprg.VectorAdd.{Config, thread_arg}
use sysprg.NoLock.{dst, src}
use sysprg.TryWait.{
  Pc, top, second, backing, adding, unlock_dst, unlock_src, System, start, Step, takes_dst,
  fails_dst, takes_src, fails_src, backs_off, adds, unlocks_dst, unlocks_src, AnyStep, step,
}

module _ (cfg : Config) where
  -- Whether thread `j` has mutex `l`.
  abbrev pub held : ℕ → Pc → ℕ → Bool
  held j (top r) l = false
  held j (second r) l = l == dst cfg j
  held j (backing r) l = l == dst cfg j
  held j (adding r) l = (l == dst cfg j) || (l == src cfg j)
  held j (unlock_dst r) l = (l == dst cfg j) || (l == src cfg j)
  held j (unlock_src r) l = l == src cfg j

  -- The calls of a thread are at most `loops`.
  abbrev pub Within : Pc → Type 0
  Within (top r) = r ≤ cfg.loops
  Within (second r) = r < cfg.loops
  Within (backing r) = r < cfg.loops
  Within (adding r) = r < cfg.loops
  Within (unlock_dst r) = r < cfg.loops
  Within (unlock_src r) = r < cfg.loops

  pub record Inv (s : System) : Type 0 where
    pub within : (j : ℕ) → Within (s.pc j)
    pub idle : (j : ℕ) → cfg.num_threads ≤ j → s.pc j ≡ top 0
    pub owned : (j l : ℕ) → held j (s.pc j) l ≡ true → s.owner l ≡ some j
    pub owning : (j l : ℕ) → s.owner l ≡ some j → held j (s.pc j) l ≡ true

  Within-update :
      (pc : ℕ → Pc) (j : ℕ) (p : Pc)
      → ((l : ℕ) → Within (pc l))
      → Within p
      → (l : ℕ) → Within (update pc j p l)
  Within-update pc j p all new l = elim (ℕ_discrete j l) [
    | yes e ↦ rw (if_pos (ℕ_discrete j l) e) new
    | no ne ↦ rw (if_neg (ℕ_discrete j l) ne) (all l)
  ]

  less : (r : ℕ) → Within (backing r) → Within (top r)
  less r h = omega (arith, h)

  more : (r : ℕ) → Within (unlock_src r) → Within (top (r + 1))
  more r h = omega (arith, h)

  Step-Inv :
      (j : ℕ) (s t : System)
      → j < cfg.num_threads
      → dst cfg j ≢ src cfg j
      → Step cfg j s t
      → Inv s
      → Inv t
  Step-Inv j s _ small ne (takes_dst r e lt o) inv = record {
    within = Within-update s.pc j _ inv.within (omega (arith, lt));
    idle = λ i h. update_ne s.pc j i _ (λ f. omega (arith, f, h, small)) ∙ inv.idle i h;
    owned = λ i l h. ground (arith, inv.owned i l, inv.owned i (dst cfg j), e);
    owning = λ i l h. ground (arith, inv.owning i l, inv.owning j l, e);
  }
  Step-Inv j s _ small ne (fails_dst r e lt o) inv = inv
  Step-Inv j s _ small ne (takes_src r e o) inv = record {
    within = Within-update s.pc j _ inv.within (rw e at (inv.within j));
    idle = λ i h. update_ne s.pc j i _ (λ f. omega (arith, f, h, small)) ∙ inv.idle i h;
    owned = λ i l h. ground (arith, inv.owned i l, inv.owned i (src cfg j), e);
    owning = λ i l h. ground (arith, inv.owning i l, inv.owning j l, e);
  }
  Step-Inv j s _ small ne (fails_src r e o) inv = record {
    within = Within-update s.pc j _ inv.within (rw e at (inv.within j));
    idle = λ i h. update_ne s.pc j i _ (λ f. omega (arith, f, h, small)) ∙ inv.idle i h;
    owned = λ i l h. ground (arith, inv.owned i l, e);
    owning = λ i l h. ground (arith, inv.owning i l, e);
  }
  Step-Inv j s _ small ne (backs_off r e) inv = record {
    within = Within-update s.pc j _ inv.within (less r (rw e at (inv.within j)));
    idle = λ i h. update_ne s.pc j i _ (λ f. omega (arith, f, h, small)) ∙ inv.idle i h;
    owned = λ i l h. ground (arith, inv.owned i l, inv.owned j l, e);
    owning = λ i l h. ground (arith, inv.owning i l, inv.owning j l, e);
  }
  Step-Inv j s _ small ne (adds r e) inv = record {
    within = Within-update s.pc j _ inv.within (rw e at (inv.within j));
    idle = λ i h. update_ne s.pc j i _ (λ f. omega (arith, f, h, small)) ∙ inv.idle i h;
    owned = λ i l h. ground (arith, inv.owned i l, e);
    owning = λ i l h. ground (arith, inv.owning i l, e);
  }
  Step-Inv j s _ small ne (unlocks_dst r e) inv = record {
    within = Within-update s.pc j _ inv.within (rw e at (inv.within j));
    idle = λ i h. update_ne s.pc j i _ (λ f. omega (arith, f, h, small)) ∙ inv.idle i h;
    owned = λ i l h. ground (arith, inv.owned i l, inv.owned j l, e);
    owning = λ i l h. ground (arith, inv.owning i l, inv.owning j l, e);
  }
  Step-Inv j s _ small ne (unlocks_src r e) inv = record {
    within = Within-update s.pc j _ inv.within (more r (rw e at (inv.within j)));
    idle = λ i h. update_ne s.pc j i _ (λ f. omega (arith, f, h, small)) ∙ inv.idle i h;
    owned = λ i l h. ground (arith, inv.owned i l, inv.owned j l, e);
    owning = λ i l h. ground (arith, inv.owning i l, inv.owning j l, e);
  }

  pub apart : (j : ℕ) → dst cfg j ≢ src cfg j
  unfolding dst src thread_arg
  apart j = λ e. ground (arith, e)

  start-Inv : Inv start
  start-Inv = record {
    within = λ j. omega arith;
    idle = λ j h. refl;
    owned = λ j l h. cc;
    owning = λ j l h. cc;
  }

  pub AnyStep-Inv : (s t : System) → AnyStep cfg s t → Inv s → Inv t
  AnyStep-Inv s t (step j lt st) inv = Step-Inv j s t lt (apart j) st inv

  pub reached-Inv : {s : System} → Reach (AnyStep cfg) start s → Inv s
  reached-Inv r = Reach-keeps (AnyStep cfg) Inv AnyStep-Inv start-Inv r

  both_held :
      (j l x : ℕ) (s : System) → Inv s → held j (s.pc j) x ≡ true → held l (s.pc l) x ≡ true → j ≡ l
  both_held j l x s inv h g = let a = inv.owned j x h in let b = inv.owned l x g in cc

  -- Two threads that run the loop over the values at one time do so on four vectors that are all
  -- different, for any options on the command line.
  pub loop_exclusion :
      (s : System) (j l q r : ℕ)
      → Reach (AnyStep cfg) start s
      → j ≢ l
      → s.pc j ≡ adding q
      → s.pc l ≡ adding r
      → (dst cfg j ≢ dst cfg l)
        × (dst cfg j ≢ src cfg l)
        × (src cfg j ≢ dst cfg l)
        × (src cfg j ≢ src cfg l)
  loop_exclusion s j l q r run ne ej el =
      let inv = reached-Inv run in
      let no_both : (x : ℕ) → held j (adding q) x ≡ true → held l (adding r) x ≡ true → ⊥ =
        λ x h g. ne (both_held j l x s inv (rw (ej) h) (rw (el) g)) in
      (
        λ f. no_both (dst cfg j) (ground arith) (ground (arith, f)),
        λ f. no_both (dst cfg j) (ground arith) (ground (arith, f)),
        λ f. no_both (src cfg j) (ground arith) (ground (arith, f)),
        λ f. no_both (src cfg j) (ground arith) (ground (arith, f)),
      )
