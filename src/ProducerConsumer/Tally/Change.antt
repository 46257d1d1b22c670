-- ===== src/ProducerConsumer/Tally/Change.antt =====
-- One thread's step, and the tally of all.
use sysprg.Prelude.{
  true, ℕ, ◌+◌, ◌<◌, ◌≡◌, ◌≢◌, sym, ap, ◌∙◌, ◌⊎◌, inl, inr, true, length, update, update_self,
  update_ne, update_case, arith,
}
use mathlib.Core.Path.{subst}
use sysprg.Prelude.Int.{ℤ}
use sysprg.Prelude.Sums.{sum, sum_at, sum_past, sum_off}
use sysprg.Buffer.{eq_int, end_of_stream}
use sysprg.ProducerConsumer.{Config, Mem, value, rounds, main_id, Pc}
use sysprg.ProducerConsumer.Credits.{threads}
use sysprg.ProducerConsumer.Streams.{IsMaker, Within, filled, weigh, weigh-last, Streams}
use sysprg.ProducerConsumer.Streams.Kept.{main-IsMaker, consumer-IsTaker, role}
use sysprg.ProducerConsumer.Tally.{consumed, closes, closes-last, sent, Tally}
use sysprg.ProducerConsumer.Tally.Passes.{Passes}

module _ (cfg : Config) where
  module _ {id : ℕ} (m m' : Mem) {pc : ℕ → Pc} {p' : Pc}
      (streams : Streams cfg (record { mem = m; pc = pc }))
      (old : Tally cfg (record { mem = m; pc = pc })) (lt : id < threads cfg)
      (step : Passes cfg id m.put m'.put m.got m'.got (pc id) p') where
    abbrev now : ℕ → Pc
    now = update pc id p'

    pub Passes-within : (j : ℕ) → j < cfg.producers → Within cfg.loops (now j)
    Passes-within j less =
        update_case (Within cfg.loops) pc id j p'
          (λ e.
            let rounds_here : rounds cfg id ≡ cfg.loops = ground (arith, less, e) in
            subst (λ n. Within n p') rounds_here
              (step.stays (
                subst (λ n. Within n (pc id)) (sym rounds_here)
                  (subst (λ k. Within cfg.loops (pc k)) (sym e) (old.within j less)))))
          (λ ne. old.within j less)

    main_same : id ≢ main_id cfg → now (main_id cfg) ≡ pc (main_id cfg)
    main_same ne = update_ne pc id (main_id cfg) p' ne

    now_at : id ≡ main_id cfg → now (main_id cfg) ≡ p'
    now_at e = ap now (sym e) ∙ update_self pc id

    carried :
        m'.put ≡ m.put
        → filled (now (main_id cfg)) ≡ filled (pc (main_id cfg))
        → (filled (now (main_id cfg)) ≡ 0) ⊎ (closes m'.put ≡ true)
    carried same f = elim old.closed [
      | inl none_yet ↦ inl (f ∙ none_yet)
      | inr closed ↦ inr (ap closes same ∙ closed)
    ]

    pub Passes-closed : (filled (now (main_id cfg)) ≡ 0) ⊎ (closes m'.put ≡ true)
    Passes-closed = elim (role cfg id lt) [
      | inl less ↦ elim (step.adds (streams.makers id less)) [
        | inl (same, f) ↦ carried same (ap filled (main_same (omega (arith, less))))
        | inr (more, f) ↦ elim streams.late [
          | inl at_start ↦ inl (ap filled (main_same (omega (arith, less)) ∙ at_start))
          | inr all ↦ let (i, e) = all id less in absurd (step.runs i e)
        ]
      ]
      | inr (inl (k, less, e)) ↦
          carried (step.leaves (consumer-IsTaker cfg streams k less e))
            (ap filled (main_same (omega (arith, less, e))))
      | inr (inr e) ↦ elim (step.adds (main-IsMaker cfg streams e)) [
        | inl (same, f) ↦ carried same (ap filled (now_at e) ∙ f ∙ ap (λ k. filled (pc k)) e)
        | inr (more, f) ↦
            let main_value : eq_int (value cfg id (filled (pc id))) end_of_stream ≡ true =
              ground (arith, e) in
            inr (ap closes more ∙ closes-last m.put (value cfg id (filled (pc id))) ∙ main_value)
      ]
    ]

    added :
        (w : ℤ → ℕ)
        → IsMaker (pc id)
        → weigh w m'.put + sent cfg w id (filled (pc id))
          ≡ weigh w m.put + sent cfg w id (filled p')
    added w h = elim (step.adds h) [
      | inl (same, f) ↦ omega (arith, ap (weigh w) same, ap (sent cfg w id) f)
      | inr (more, f) ↦ omega (
        arith,
        ap (weigh w) more,
        weigh-last w m.put (value cfg id (filled (pc id))),
        ap (sent cfg w id) f,
      )
    ]

    abbrev by_producer : (ℤ → ℕ) → ℕ → Pc → ℕ
    by_producer w j p = sent cfg w j (filled p)

    abbrev by_main : (ℤ → ℕ) → Pc → ℕ
    by_main w p = sent cfg w (main_id cfg) (filled p)

    abbrev index : ℕ → ℕ
    index k = cfg.producers + k

    abbrev Moved : ℕ → Type 0
    Moved i =
        sum cfg.consumers (λ j. consumed (update pc i p' (index j))) + consumed (pc i)
        ≡ sum cfg.consumers (λ j. consumed (pc (index j))) + consumed p'

    pub Passes-weighs :
        (w : ℤ → ℕ)
        → weigh w m'.put
          ≡ sum cfg.producers (λ j. sent cfg w j (filled (now j)))
            + sent cfg w (main_id cfg) (filled (now (main_id cfg)))
    Passes-weighs w = elim (role cfg id lt) [
      | inl less ↦ omega (
        arith,
        old.weighs w,
        added w (streams.makers id less),
        sum_at (by_producer w) cfg.producers id pc p' less,
        ap (by_main w) (main_same (omega (arith, less))),
      )
      | inr (inl (k, less, e)) ↦ omega (
        arith,
        old.weighs w,
        ap (weigh w) (step.leaves (consumer-IsTaker cfg streams k less e)),
        sum_off (by_producer w) cfg.producers id (λ j. j) pc p' (λ j l. omega (arith, e)),
        ap (by_main w) (main_same (omega (arith, less, e))),
      )
      | inr (inr e) ↦ omega (
        arith,
        old.weighs w,
        added w (main-IsMaker cfg streams e),
        sum_off (by_producer w) cfg.producers id (λ j. j) pc p' (λ j l. omega (arith, e)),
        ap (by_main w) (now_at e),
        ap (λ k. sent cfg w k (filled (pc k))) e,
        ap (λ k. sent cfg w k (filled p')) e,
      )
    ]

    pub Passes-taken : length m'.got ≡ sum cfg.consumers (λ k. consumed (now (cfg.producers + k)))
    Passes-taken = elim (role cfg id lt) [
      | inl less ↦
          ap length (step.keeps (streams.makers id less))
          ∙ old.taken
          ∙ sym (sum_off (λ k. consumed) cfg.consumers id index pc p' (λ k l. omega (arith, less)))
      | inr (inr e) ↦
          ap length (step.keeps (main-IsMaker cfg streams e))
          ∙ old.taken
          ∙ sym (sum_off (λ k. consumed) cfg.consumers id index pc p' (λ k l. omega (arith, e)))
      | inr (inl (k, less, e)) ↦ omega (
        arith,
        old.taken,
        step.takes (consumer-IsTaker cfg streams k less e),
        subst (λ i. Moved i) (sym e) (sum_past consumed cfg.consumers cfg.producers k pc p' less),
      )
    ]
