-- ===== src/ProducerConsumer/Holding.antt =====
-- main-two-cvs-while.c: the thread that has the mutex can go on.
use sysprg.Prelude.{
  ℕ, ◌<◌, ◌≡◌, ◌≢◌, refl, sym, ap, ◌∙◌, ◌⊎◌, inl, inr, true, false, some, update, arith, ℕ_discrete,
}
use sysprg.ProducerConsumer.{
  Config, Mem, System, Move, Step, Reach, MayRun, Pc, Signals, Wakes, Rouses, p_lock, p_test,
  p_fill, p_signal, p_unlock, c_test, c_get, c_signal, c_unlock, done, p_take, p_full, p_room,
  p_put, p_release, c_empty, c_some, c_take_out, c_release, act, signal_one, signal_none, rouse,
  p_signals, c_signals, p_rouses, c_rouses, start, later, fill_wakes,
}
use sysprg.ProducerConsumer.Invariant.{holds}
use sysprg.ProducerConsumer.Safety.{fill_returns, get_returns}
use sysprg.ProducerConsumer.Credits.{threads, below}
use sysprg.ProducerConsumer.Credits.Kept.{Reach-Credits}
use sysprg.ProducerConsumer.Streams.Kept.{Reach-Streams}
use sysprg.ProducerConsumer.Running.{Goes, acts, p_signal-Goes, c_signal-Goes}

-- The mutex belongs to a thread that has it.
abbrev pub Held : Mem → (ℕ → Pc) → Type 0
Held m pc = (j : ℕ) → m.lock ≡ some j → holds (pc j) ≡ true

Wakes-waits : {cfg : Config} {a b q : Pc} → Wakes cfg a b q → holds b ≡ false
Wakes-waits fill_wakes = refl
Wakes-waits _ = refl

Rouses-waits : {p q : Pc} → Rouses p q → holds p ≡ false
Rouses-waits p_rouses = refl
Rouses-waits c_rouses = refl

Signals-keeps : {p q : Pc} → Signals p q → holds q ≡ true
Signals-keeps p_signals = refl
Signals-keeps c_signals = refl

module _ (cfg : Config) where
  Move-Held :
      (id : ℕ) (pc : ℕ → Pc) {m m' : Mem} {p p' : Pc}
      → Held m pc
      → pc id ≡ p
      → Move cfg id m p m' p'
      → cfg.program.retests ≡ true
      → Held m' (update pc id p')
  Move-Held id pc old e (p_take lt f) ws j h = ground (arith, old j)
  Move-Held id pc old e mv ws j h = ground (arith, old j)

  Step-Held :
      {s t : System} → Held s.mem s.pc → cfg.program.retests ≡ true → Step cfg s t → Held t.mem t.pc
  Step-Held {s} old ws (act id le may mv) = Move-Held id s.pc old refl mv ws
  Step-Held old ws (signal_one id j sg w) =
      λ k h. ground (arith, old k h, Wakes-waits w, Signals-keeps sg)
  Step-Held old ws (signal_none id sg n) = λ k h. ground (arith, old k h, Signals-keeps sg)
  Step-Held old ws (rouse j r) = λ k h. ground (arith, old k h, Rouses-waits r)

  pub Reach-Held : cfg.program.retests ≡ true → {s : System} → Reach cfg s → Held s.mem s.pc
  Reach-Held ws start = λ j h. absurd (cc)
  Reach-Held ws (later r st) = Step-Held (Reach-Held ws r) ws st

  module _ (while_waits : cfg.program.retests ≡ true) (two_cvs : cfg.program.one_cv ≡ false)
      (some_room : 0 < cfg.max) {s : System} (r : Reach cfg s) where
    may_run : (id : ℕ) → s.pc id ≢ p_lock 0 → MayRun cfg s.pc id
    may_run id ne e = elim (Reach-Streams cfg while_waits two_cvs some_room r).late [
      | inl at_start ↦ absurd (ne (ap s.pc e ∙ at_start))
      | inr all ↦ all
    ]

    outside : (j : ℕ) → (j < threads cfg) ⊎ (s.pc j ≡ done 0)
    outside = (Reach-Credits cfg two_cvs while_waits some_room r).outside

    moves :
        (id : ℕ) (m : Mem) (p q : Pc)
        → s.pc id ≡ p
        → p ≢ p_lock 0
        → p ≢ done 0
        → Move cfg id s.mem p m q
        → Goes cfg s
    moves id m p q e late runs mv =
        acts cfg {s = s} {id = id} {m = m} {p = q}
          (below cfg s.pc id (outside id) (λ f. runs (sym e ∙ f)))
          (may_run id (λ f. late (sym e ∙ f))) (rw e mv)

    holder_goes : (id : ℕ) (p : Pc) → s.pc id ≡ p → holds p ≡ true → Goes cfg s
    holder_goes id (p_test i) e h = elim (ℕ_discrete s.mem.shared.num_full cfg.max) [
      | yes full ↦ moves id _ _ _ e (λ f. cc) (λ f. cc) (p_full full)
      | no room ↦ moves id _ _ _ e (λ f. cc) (λ f. cc) (p_room room)
    ]
    holder_goes id (p_fill i) e h =
        let (t, f) = fill_returns cfg while_waits some_room r id i e in
        moves id _ _ _ e (λ f. cc) (λ f. cc) (p_put f)
    holder_goes id (p_signal i) e h = p_signal-Goes cfg two_cvs s outside id i e
    holder_goes id (p_unlock i) e h = moves id _ _ _ e (λ f. cc) (λ f. cc) p_release
    holder_goes id (c_test n) e h = elim (ℕ_discrete s.mem.shared.num_full 0) [
      | yes none_in ↦ moves id _ _ _ e (λ f. cc) (λ f. cc) (c_empty none_in)
      | no some_in ↦ moves id _ _ _ e (λ f. cc) (λ f. cc) (c_some some_in)
    ]
    holder_goes id (c_get n) e h =
        let (v, t, f) = get_returns cfg while_waits some_room r id n e in
        moves id _ _ _ e (λ f. cc) (λ f. cc) (c_take_out f)
    holder_goes id (c_signal n v) e h = c_signal-Goes cfg two_cvs s outside id n v e
    holder_goes id (c_unlock n v) e h = moves id _ _ _ e (λ f. cc) (λ f. cc) c_release
    holder_goes id (done i) e h = absurd (cc)
    holder_goes id _ e h = absurd (cc)

    pub locked-Goes : (j : ℕ) → s.mem.lock ≡ some j → Goes cfg s
    locked-Goes j e = holder_goes j (s.pc j) refl (Reach-Held while_waits r j e)
