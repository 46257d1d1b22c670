-- ===== src/ProducerConsumer/Termination.antt =====
-- main-two-cvs-while.c: every run comes to an end.
use sysprg.Prelude.{
  ℕ, suc, ◌+◌, ◌*◌, ◌≤◌, ◌<◌, ◌≡◌, ◌≢◌, sym, ap, ◌⊎◌, inl, inr, Bool, true, false, if◌then◌else◌,
  update, update_ne, arith,
}
use mathlib.Core.Path.{subst}
use sysprg.Prelude.Sums.{sum_at, sum_bounded, sum_split}
use sysprg.ProducerConsumer.{
  Config, System, Step, Reach, rounds, main_id, Pc, init, act, signal_one, signal_none, rouse,
  start, later,
}
use sysprg.ProducerConsumer.Invariant.{Stored, Reach-Inv}
use sysprg.ProducerConsumer.Credits.{
  threads, below, Signals-done, Rouses-done, Wakes-done, Signals-Wakes, Credits,
}
use sysprg.ProducerConsumer.Credits.Kept.{Reach-Credits}
use sysprg.ProducerConsumer.Streams.{IsTaker, Within, Streams}
use sysprg.ProducerConsumer.Streams.Kept.{role, Wakes-Rouses, Reach-Streams}
use sysprg.ProducerConsumer.Tally.{Tally}
use sysprg.ProducerConsumer.Tally.Kept.{Reach-Tally}
use sysprg.ProducerConsumer.Ranking.{
  rank, Signals-rank, Rouses-rank, ranks, measure, Move-rank, put_fits,
}

module _ (cfg : Config) where
  -- A thread wakes with no signal.
  abbrev pub is_wakeup : {s t : System} → Step cfg s t → Bool
  is_wakeup (rouse _ _) = true
  is_wakeup _ = false

  -- A run from the start, with how many of its steps are not wakeups with no signal, and how many are.
  pub data Run : ℕ → ℕ → System → Type 0 where
    begins : Run 0 0 (init cfg)
    works :
        {k w : ℕ} {s t : System}
        → Run k w s
        → (st : Step cfg s t) → is_wakeup st ≡ false
        → Run (suc k) w t
    wakes :
        {k w : ℕ} {s t : System}
        → Run k w s
        → (st : Step cfg s t) → is_wakeup st ≡ true
        → Run k (suc w) t

  pub Run-Reach : {k w : ℕ} {s : System} → Run k w s → Reach cfg s
  Run-Reach begins = start
  Run-Reach (works r st e) = later (Run-Reach r) st
  Run-Reach (wakes r st e) = later (Run-Reach r) st

  -- A step makes the measure smaller, but for a wakeup with no signal.
  Counts : {s t : System} → Step cfg s t → Type 0
  Counts {s} {t} st =
      if is_wakeup st then measure cfg t ≡ measure cfg s + 2 else measure cfg t < measure cfg s

  moved :
      (pc : ℕ → Pc) (id : ℕ) (p : Pc)
      → id < threads cfg
      → ranks cfg (update pc id p) + rank (rounds cfg id) (pc id)
        ≡ ranks cfg pc + rank (rounds cfg id) p
  moved pc id p lt = sum_at (λ j. rank (rounds cfg j)) (threads cfg) id pc p lt

  module _ {s : System} (while_waits : cfg.program.retests ≡ true)
      (credits : Credits cfg.max (threads cfg) s) (streams : Streams cfg s) (tally : Tally cfg s)
      (stored : Stored cfg.max s.mem) where
    at_place : (id : ℕ) → id < threads cfg → Within (rounds cfg id) (s.pc id) ⊎ IsTaker (s.pc id)
    at_place id lt = elim (role cfg id lt) [
      | inl less ↦
          let e : rounds cfg id ≡ cfg.loops = ground (arith, less) in
          inl (subst (λ n. Within n (s.pc id)) (sym e) (tally.within id less))
      | inr (inl (k, less, e)) ↦ inr (subst (λ j. IsTaker (s.pc j)) (sym e) (streams.takers k less))
      | inr (inr e) ↦
          let f : rounds cfg id ≡ cfg.consumers = ground (arith, e) in
          inl (
            subst (λ n. Within n (s.pc id)) (sym f)
              (subst (λ j. Within cfg.consumers (s.pc j)) (sym e) streams.last))
    ]

    Step-Counts : {t : System} (st : Step cfg s t) → Counts st
    unfolding Counts
    Step-Counts (act id {m} {p} le may mv) =
        let lt : id < threads cfg = omega arith in
        omega (
          arith,
          moved s.pc id p lt,
          Move-rank cfg mv while_waits stored (put_fits cfg streams tally) (at_place id lt),
        )
    Step-Counts (signal_none id {p} sg waits) =
        let lt = below cfg s.pc id (credits.outside id) (Signals-done sg) in
        omega (arith, moved s.pc id p lt, Signals-rank (rounds cfg id) sg)
    Step-Counts (rouse j {q} r) =
        let lt = below cfg s.pc j (credits.outside j) (Rouses-done r) in
        omega (arith, moved s.pc j q lt, Rouses-rank (rounds cfg j) r)
    Step-Counts (signal_one id j {p} {q} sg w) =
        let ltj = below cfg s.pc j (credits.outside j) (Wakes-done w) in
        let lti = below cfg s.pc id (credits.outside id) (Signals-done sg) in
        let apart : j ≢ id = λ e. Signals-Wakes sg w (ap s.pc (sym e)) in
        omega (
          arith,
          moved s.pc j q ltj,
          moved (update s.pc j q) id p lti,
          ap (rank (rounds cfg id)) (update_ne s.pc j id q apart),
          Signals-rank (rounds cfg id) sg,
          Rouses-rank (rounds cfg j) (Wakes-Rouses cfg w),
        )

  module _ (while_waits : cfg.program.retests ≡ true) (two_cvs : cfg.program.one_cv ≡ false)
      (some_room : 0 < cfg.max) where
    Reach-Counts : {s t : System} → Reach cfg s → (st : Step cfg s t) → Counts st
    Reach-Counts r st =
        Step-Counts while_waits (Reach-Credits cfg two_cvs while_waits some_room r)
          (Reach-Streams cfg while_waits two_cvs some_room r)
          (Reach-Tally cfg while_waits two_cvs some_room r)
          (Reach-Inv cfg while_waits some_room r).stored st

    Run-measure :
        {k w : ℕ} {s : System} → Run k w s → k + measure cfg s ≤ measure cfg (init cfg) + 2 * w
    unfolding Counts
    Run-measure begins = omega arith
    Run-measure (works {s} {t} r st e) =
        let c : measure cfg t < measure cfg s = rw e at (Reach-Counts (Run-Reach r) st) in
        omega (arith, Run-measure r, c)
    Run-measure (wakes {s} {t} r st e) =
        let c : measure cfg t ≡ measure cfg s + 2 = rw e at (Reach-Counts (Run-Reach r) st) in
        omega (arith, Run-measure r, c)

    measure-init :
        measure cfg (init cfg)
        ≤ 16 * (cfg.producers * cfg.loops) + 7 * cfg.producers + 23 * cfg.consumers + 7
    measure-init = omega (
      arith,
      sum_split cfg.producers cfg.consumers first_rank,
      sum_bounded cfg.producers (8 * cfg.loops + 7) first_rank (λ j lt. ground arith),
      sum_bounded cfg.consumers 7 (λ k. first_rank (cfg.producers + k)) (λ k lt. ground arith),
      main_rank,
      times cfg.producers cfg.loops,
    )
      where
        first_rank : ℕ → ℕ
        first_rank id = rank (rounds cfg id) ((init cfg).pc id)

        main_rank : first_rank (main_id cfg) ≡ 8 * cfg.consumers + 7
        main_rank = ground arith

        times : (m n : ℕ) → m * (8 * n + 7) ≡ 8 * (m * n) + 7 * m
        times m n = grind arith

  -- The program terminates: with two condition variables, tests by `while` and a buffer of at least
  -- one slot, a run in which `w` times a waiter wakes with no signal has at most
  -- `16 * producers * loops + 7 * producers + 23 * consumers + 7 + 2 * w` other steps, whatever the
  -- interleaving.
  pub two_cvs_terminates :
      cfg.program.retests ≡ true
      → cfg.program.one_cv ≡ false
      → 0 < cfg.max
      → {k w : ℕ} {s : System} → Run k w s
      → k ≤ 16 * (cfg.producers * cfg.loops) + 7 * cfg.producers + 23 * cfg.consumers + 7 + 2 * w
  two_cvs_terminates while_waits two_cvs some_room r = omega (
    arith,
    Run-measure while_waits two_cvs some_room r,
    measure-init while_waits two_cvs some_room,
  )
