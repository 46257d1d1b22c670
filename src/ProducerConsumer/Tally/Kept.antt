-- ===== src/ProducerConsumer/Tally/Kept.antt =====
-- Each step of the program keeps `Tally`.
use sysprg.Prelude.{◌∙◌, ℕ, ◌<◌, ◌≡◌, ◌≢◌, sym, ap, ◌⊎◌, inl, true, false, update, update_ne, arith}
use mathlib.Core.Path.{subst}
use sysprg.Prelude.Sums.{sum_none}
use sysprg.ProducerConsumer.{
  Config, Mem, System, Step, Reach, main_id, Pc, Signals, Rouses, init, done, act, signal_one,
  signal_none, rouse, start, later,
}
use sysprg.ProducerConsumer.Credits.{
  threads, below, Signals-done, Rouses-done, Wakes-done, Signals-Wakes,
}
use sysprg.ProducerConsumer.Credits.Kept.{Reach-Credits}
use sysprg.ProducerConsumer.Streams.{filled, weigh-nil, Streams}
use sysprg.ProducerConsumer.Streams.Kept.{roused, Wakes-Rouses, Reach-Streams}
use sysprg.ProducerConsumer.Tally.{pick-nil, row, row-zero, made, sent, Tally}
use sysprg.ProducerConsumer.Tally.Passes.{Passes, Move-Passes, Signals-Passes, Rouses-Passes}
use sysprg.ProducerConsumer.Tally.Change.{Passes-within, Passes-closed, Passes-weighs, Passes-taken}
use sysprg.ProducerConsumer.Tally.Rows.{Passes-rows}

module _ (cfg : Config) where
  module _ {id : ℕ} (m m' : Mem) {pc : ℕ → Pc} {p' : Pc}
      (streams : Streams cfg (record { mem = m; pc = pc }))
      (old : Tally cfg (record { mem = m; pc = pc })) (lt : id < threads cfg)
      (step : Passes cfg id m.put m'.put m.got m'.got (pc id) p') where
    Passes-Tally : Tally cfg (record { mem = m'; pc = update pc id p' })
    Passes-Tally = record {
      within = Passes-within cfg m m' streams old lt step;
      closed = Passes-closed cfg m m' streams old lt step;
      weighs = Passes-weighs cfg m m' streams old lt step;
      rows = Passes-rows cfg m m' streams old lt step;
      taken = Passes-taken cfg m m' streams old lt step;
    }

  roused-Tally :
      {m : Mem} {pc : ℕ → Pc} {j : ℕ} {q : Pc}
      → Streams cfg (record { mem = m; pc = pc })
      → Tally cfg (record { mem = m; pc = pc })
      → j < threads cfg
      → Rouses (pc j) q
      → Tally cfg (record { mem = m; pc = update pc j q })
  roused-Tally {m} streams old lt r =
      Passes-Tally m m streams old lt (Rouses-Passes cfg m.put m.got r)

  signalled-Tally :
      {m : Mem} {pc : ℕ → Pc} {id : ℕ} {p : Pc}
      → Streams cfg (record { mem = m; pc = pc })
      → Tally cfg (record { mem = m; pc = pc })
      → id < threads cfg
      → Signals (pc id) p
      → Tally cfg (record { mem = m; pc = update pc id p })
  signalled-Tally {m} streams old lt sg =
      Passes-Tally m m streams old lt (Signals-Passes cfg m.put m.got sg)

  module _ {s : System} (outside : (j : ℕ) → (j < threads cfg) ⊎ (s.pc j ≡ done 0))
      (streams : Streams cfg s) (old : Tally cfg s) where
    Step-Tally : {t : System} → Step cfg s t → Tally cfg t
    Step-Tally (act id {m} {p} le may mv) =
        Passes-Tally s.mem m streams old (omega arith) (Move-Passes cfg mv)
    Step-Tally (signal_none id sg waits) =
        signalled-Tally streams old (below cfg s.pc id (outside id) (Signals-done sg)) sg
    Step-Tally (rouse j r) =
        roused-Tally streams old (below cfg s.pc j (outside j) (Rouses-done r)) r
    Step-Tally (signal_one id j {p} {q} sg w) =
        let apart : j ≢ id = λ e. Signals-Wakes sg w (ap s.pc (sym e)) in
        let lt = below cfg s.pc j (outside j) (Wakes-done w) in
        let r = Wakes-Rouses cfg w in
        signalled-Tally (roused cfg streams lt r) (roused-Tally streams old lt r)
          (below cfg s.pc id (outside id) (Signals-done sg))
          (subst (λ a. Signals a p) (sym (update_ne s.pc j id q apart)) sg)

  init-Tally : Tally cfg (init cfg)
  init-Tally = record {
    within = λ j lt. ground arith;
    closed = inl (ground arith);
    weighs = λ w. omega (
      arith,
      weigh-nil w,
      sum_none cfg.producers (λ j. sent cfg w j (filled ((init cfg).pc j)))
          (λ j lt. ap (sent cfg w j) (begins j lt)),
      ap (sent cfg w (main_id cfg)) main_begins,
    );
    rows = λ j. pick-nil cfg j ∙ sym (ap (row cfg j) (none_made j) ∙ row-zero cfg j);
    taken = sym (sum_none cfg.consumers _ (λ k lt. ground arith));
  }
    where
      begins : (j : ℕ) → j < cfg.producers → filled ((init cfg).pc j) ≡ 0
      begins j lt = ground arith

      none_made : (j : ℕ) → made cfg (init cfg).pc j ≡ 0
      none_made j = ground arith

      main_begins : filled ((init cfg).pc (main_id cfg)) ≡ 0
      main_begins = ground arith

  pub Reach-Tally :
      cfg.program.retests ≡ true
      → cfg.program.one_cv ≡ false
      → 0 < cfg.max
      → {s : System} → Reach cfg s
      → Tally cfg s
  Reach-Tally while_waits two_cvs some_room start = init-Tally
  Reach-Tally while_waits two_cvs some_room (later {s} r st) =
      Step-Tally (Reach-Credits cfg two_cvs while_waits some_room r).outside
        (Reach-Streams cfg while_waits two_cvs some_room r)
        (Reach-Tally while_waits two_cvs some_room r) st
