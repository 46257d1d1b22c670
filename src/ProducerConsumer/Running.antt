-- ===== src/ProducerConsumer/Running.antt =====
-- main-two-cvs-while.c: which threads can run, and the steps that they make.
use sysprg.Prelude.{
  ℕ, ◌+◌, ◌<◌, ◌≡◌, ◌≢◌, refl, ◌∙◌, ◌⊎◌, false, update, update_self, arith, ℕ_discrete,
}
use mathlib.Core.Path.{subst}
use sysprg.Prelude.Int.{ℤ}
use sysprg.Prelude.Sums.{sum_member, sum_some}
use sysprg.ProducerConsumer.{
  Config, Mem, System, Move, Step, MayRun, Pc, Signals, Wakes, Rouses, p_lock, p_wait, p_woken,
  p_signal, p_unlock, c_wait, c_woken, c_signal, c_unlock, done, p_take, act, signal_one,
  signal_none, p_signals, c_signals, p_rouses, c_rouses, fill_wakes, empty_wakes, fill_wakes_own,
  empty_wakes_own,
}
use sysprg.ProducerConsumer.Credits.{threads, below, total, waits_room, waits_value, Wakes-done}

waits_for_room : (p : Pc) → 0 < waits_room p → (i : ℕ) × (p ≡ p_wait i)
waits_for_room (p_wait i) h = (i, refl)
waits_for_room (p_lock i) h = absurd (omega arith)
waits_for_room _ h = absurd (omega arith)

waits_for_value : (p : Pc) → 0 < waits_value p → (n : ℕ) × (p ≡ c_wait n)
waits_for_value (c_wait n) h = (n, refl)
waits_for_value (p_lock i) h = absurd (omega arith)
waits_for_value _ h = absurd (omega arith)

Rouses-waits : {p q : Pc} → Rouses p q → waits_room p + waits_value p ≡ 1
Rouses-waits p_rouses = refl
Rouses-waits c_rouses = refl

module _ (cfg : Config) where
  -- A step of the program in which some thread gets further, and not by a wakeup with no signal.
  unfoldable pub Goes : System → Type 0
  Goes s = (t : System) × Step cfg s t × (j : ℕ) × (s.pc j ≢ t.pc j) × (¬ Rouses (s.pc j) (t.pc j))

  Move-apart : {id : ℕ} {m m' : Mem} {p p' : Pc} → Move cfg id m p m' p' → p ≢ p'
  Move-apart (p_take _ _) e = cc
  Move-apart mv e = ground arith

  Move-alone : {id : ℕ} {m m' : Mem} {p p' : Pc} → Move cfg id m p m' p' → ¬ Rouses p p'
  Move-alone (p_take _ _) r = omega (arith, Rouses-waits r)
  Move-alone _ r = omega (arith, Rouses-waits r)

  Signals-apart : {p p' : Pc} → Signals p p' → (p ≢ p') × (¬ Rouses p p')
  Signals-apart p_signals = (λ e. cc, λ r. omega (arith, Rouses-waits r))
  Signals-apart c_signals = (λ e. cc, λ r. omega (arith, Rouses-waits r))

  goes_to :
      {s t : System} (j : ℕ) {p : Pc}
      → Step cfg s t
      → t.pc j ≡ p
      → s.pc j ≢ p
      → ¬ Rouses (s.pc j) p
      → Goes s
  unfolding Goes
  goes_to {s} {t} j st e ne nr =
      (t, st, j, λ f. ne (f ∙ e), λ r. nr (subst (λ q. Rouses (s.pc j) q) e r))

  pub acts :
      {s : System} {id : ℕ} {m : Mem} {p : Pc}
      → id < threads cfg
      → MayRun cfg s.pc id
      → Move cfg id s.mem (s.pc id) m p
      → Goes s
  acts {s} {id} lt may mv =
      goes_to id (act id (omega arith) may mv) (update_self s.pc id) (Move-apart mv) (Move-alone mv)

  fill_heard :
      cfg.program.one_cv ≡ false
      → {i : ℕ} {b q : Pc} → Wakes cfg (p_signal i) b q
      → 0 < waits_value b
  fill_heard two_cvs fill_wakes = omega arith
  fill_heard two_cvs (fill_wakes_own e) = absurd (cc)

  pub empty_heard :
      cfg.program.one_cv ≡ false
      → {n : ℕ} {v : ℤ} {b q : Pc} → Wakes cfg (c_signal n v) b q
      → 0 < waits_room b
  empty_heard two_cvs empty_wakes = omega arith
  empty_heard two_cvs (empty_wakes_own e) = absurd (cc)

  -- A signal goes to a waiter, if there is one.
  sends :
      (s : System) (id j : ℕ) (p q : Pc)
      → Signals (s.pc id) p
      → Wakes cfg (s.pc id) (s.pc j) q
      → Goes s
  sends s id j p q sg w =
      let (ne, nr) = Signals-apart sg in
      goes_to id (signal_one id j sg w) (update_self (update s.pc j q) id) ne nr

  unheard :
      (s : System) (id : ℕ) (p : Pc)
      → Signals (s.pc id) p
      → ((j : ℕ) (q : Pc) → ¬ Wakes cfg (s.pc id) (s.pc j) q)
      → Goes s
  unheard s id p sg none_waits =
      let (ne, nr) = Signals-apart sg in
      goes_to id (signal_none id sg none_waits) (update_self s.pc id) ne nr

  module _ (two_cvs : cfg.program.one_cv ≡ false) (s : System)
      (outside : (j : ℕ) → (j < threads cfg) ⊎ (s.pc j ≡ done 0)) where
    pub p_signal-Goes : (id i : ℕ) → s.pc id ≡ p_signal i → Goes s
    p_signal-Goes id i e = elim (ℕ_discrete (total waits_value (threads cfg) s.pc) 0) [
      | no some_wait ↦
          let (j, lt, waits) =
            sum_some (threads cfg) (λ k. waits_value (s.pc k)) (omega (arith, some_wait)) in
          let (n, f) = waits_for_value (s.pc j) waits in
          sends s id j (p_unlock i) (c_woken n) (rw e p_signals) (rw e (rw f fill_wakes))
      | yes none_wait ↦ unheard s id (p_unlock i) (rw e p_signals) (λ j q w. omega (
        arith,
        none_wait,
        fill_heard two_cvs (rw e at w),
        sum_member (threads cfg) j (λ k. waits_value (s.pc k))
            (below cfg s.pc j (outside j) (Wakes-done w)),
      ))
    ]

    pub c_signal-Goes : (id n : ℕ) (v : ℤ) → s.pc id ≡ c_signal n v → Goes s
    c_signal-Goes id n v e = elim (ℕ_discrete (total waits_room (threads cfg) s.pc) 0) [
      | no some_wait ↦
          let (j, lt, waits) =
            sum_some (threads cfg) (λ k. waits_room (s.pc k)) (omega (arith, some_wait)) in
          let (i, f) = waits_for_room (s.pc j) waits in
          sends s id j (c_unlock n v) (p_woken i) (rw e c_signals) (rw e (rw f empty_wakes))
      | yes none_wait ↦ unheard s id (c_unlock n v) (rw e c_signals) (λ j q w. omega (
        arith,
        none_wait,
        empty_heard two_cvs (rw e at w),
        sum_member (threads cfg) j (λ k. waits_room (s.pc k))
            (below cfg s.pc j (outside j) (Wakes-done w)),
      ))
    ]
