-- ===== src/ProducerConsumer/Tally/Rows.antt =====
-- One thread's step, and the values of each producer in their order.
use sysprg.Prelude.{
  refl, ℕ_discrete, ltb, if◌then◌else◌, ltb_ge, true, false, suc, ◌*◌, ◌≤◌, ◌++◌, [], ◌∷◌, ℕ, ◌+◌,
  ◌<◌, ◌≡◌, ◌≢◌, sym, ap, ◌∙◌, inl, inr, true, update, update_self, update_ne, update_case, arith,
}
use mathlib.Core.Path.{subst}
use sysprg.Prelude.Int.{ℤ, pos}
use sysprg.Buffer.{end_of_stream}
use sysprg.ProducerConsumer.{Config, Mem, value, Pc}
use sysprg.ProducerConsumer.Credits.{threads}
use sysprg.ProducerConsumer.Streams.{Within-filled, filled, Streams}
use sysprg.ProducerConsumer.Streams.Kept.{main-IsMaker, consumer-IsTaker, role}
use sysprg.ProducerConsumer.Tally.{pick, pick-last, row, row-suc, is_from, made, block_alone, Tally}
use sysprg.ProducerConsumer.Tally.Passes.{Passes}
use sysprg.ProducerConsumer.Tally.Change.{Passes-within}

module _ (cfg : Config) where
  module _ {id : ℕ} (m m' : Mem) {pc : ℕ → Pc} {p' : Pc}
      (streams : Streams cfg (record { mem = m; pc = pc }))
      (old : Tally cfg (record { mem = m; pc = pc })) (lt : id < threads cfg)
      (step : Passes cfg id m.put m'.put m.got m'.got (pc id) p') where
    abbrev now : ℕ → Pc
    now = update pc id p'

    made_same : filled p' ≡ filled (pc id) → (j : ℕ) → made cfg now j ≡ made cfg pc j
    made_same f j =
        update_case (λ q. (if ltb j cfg.producers then filled q else 0) ≡ made cfg pc j) pc id j p'
          (λ e.
            let g : filled p' ≡ filled (pc j) = f ∙ ap (λ k. filled (pc k)) e in
            ap (λ n. if ltb j cfg.producers then n else 0) g)
          (λ ne. refl)

    made_other : (j : ℕ) → id ≢ j → made cfg now j ≡ made cfg pc j
    made_other j ne =
        ap (λ q. if ltb j cfg.producers then filled q else 0) (update_ne pc id j p' ne)

    -- A thread that is not a producer.
    made_far : cfg.producers ≤ id → (j : ℕ) → made cfg now j ≡ made cfg pc j
    made_far ge j = elim (ℕ_discrete id j) [
      | no ne ↦ made_other j ne
      | yes e ↦
          let f : ltb j cfg.producers ≡ false = ltb_ge j cfg.producers (omega (arith, ge, e)) in
          rw f refl
    ]

    rows_kept :
        m'.put ≡ m.put
        → ((j : ℕ) → made cfg now j ≡ made cfg pc j)
        → (j : ℕ) → pick cfg j m'.put ≡ row cfg j (made cfg now j)
    rows_kept same f j = ap (pick cfg j) same ∙ old.rows j ∙ ap (row cfg j) (sym (f j))

    -- A value that is not one of producer `j`.
    rows_other :
        (v : ℤ) (j : ℕ)
        → m'.put ≡ m.put ++ v ∷ []
        → is_from cfg j v ≡ false
        → made cfg now j ≡ made cfg pc j
        → pick cfg j m'.put ≡ row cfg j (made cfg now j)
    rows_other v j more off f =
        ap (pick cfg j) more
        ∙ pick-last cfg j m.put v
        ∙ ap (λ b. if b then pick cfg j m.put ++ v ∷ [] else pick cfg j m.put) off
        ∙ old.rows j
        ∙ ap (row cfg j) (sym f)

    module _ (less : id < cfg.producers) (n : ℕ) (has : filled (pc id) ≡ n)
        (more : m'.put ≡ m.put ++ pos (id * cfg.loops + n) ∷ []) (gets : filled p' ≡ suc n) where
      in_loops : n < cfg.loops
      in_loops = omega (
        arith,
        gets,
        ap filled (update_self pc id {here = p'}),
        Within-filled cfg.loops (now id) (Passes-within cfg m m' streams old lt step id less),
      )

      rows_here : pick cfg id m'.put ≡ row cfg id (made cfg now id)
      rows_here =
          ap (pick cfg id) more
          ∙ pick-last cfg id m.put (pos (id * cfg.loops + n))
          ∙ ap
              (λ b.
                if b then pick cfg id m.put ++ pos (id * cfg.loops + n) ∷ [] else pick cfg id m.put)
              own
          ∙ ap (λ l. l ++ pos (id * cfg.loops + n) ∷ []) (old.rows id ∙ ap (row cfg id) before)
          ∙ sym (row-suc cfg id n)
          ∙ ap (row cfg id) (sym after)
        where
          own : is_from cfg id (pos (id * cfg.loops + n)) ≡ true
          own = ground (arith, in_loops)

          before : made cfg pc id ≡ n
          before = ground (arith, less, has)

          after : made cfg now id ≡ suc n
          after = ground (arith, less, gets)

      rows_there : (j : ℕ) → id ≢ j → pick cfg j m'.put ≡ row cfg j (made cfg now j)
      rows_there j ne = rows_other (pos (id * cfg.loops + n)) j more off (made_other j ne)
        where
          off : is_from cfg j (pos (id * cfg.loops + n)) ≡ false
          off = ground (arith, ne, in_loops, block_alone cfg.loops j id n)

    pub Passes-rows : (j : ℕ) → pick cfg j m'.put ≡ row cfg j (made cfg now j)
    Passes-rows j = elim (role cfg id lt) [
      | inr (inl (k, less, e)) ↦
          rows_kept (step.leaves (consumer-IsTaker cfg streams k less e))
            (made_far (omega (arith, e))) j
      | inr (inr e) ↦ elim (step.adds (main-IsMaker cfg streams e)) [
        | inl (same, f) ↦ rows_kept same (made_same f) j
        | inr (more, f) ↦
            let v : value cfg id (filled (pc id)) ≡ end_of_stream = ground (arith, e) in
            rows_other end_of_stream j (more ∙ ap (λ x. m.put ++ x ∷ []) v) refl
              (made_far (omega (arith, e)) j)
      ]
      | inl less ↦ elim (step.adds (streams.makers id less)) [
        | inl (same, f) ↦ rows_kept same (made_same f) j
        | inr (more, f) ↦
            let v : value cfg id (filled (pc id)) ≡ pos (id * cfg.loops + filled (pc id)) =
              ground (arith, less) in
            let added = more ∙ ap (λ x. m.put ++ x ∷ []) v in
            elim (ℕ_discrete id j) [
              | yes e ↦
                  subst (λ k. pick cfg k m'.put ≡ row cfg k (made cfg now k)) e
                    (rows_here less (filled (pc id)) refl added f)
              | no ne ↦ rows_there less (filled (pc id)) refl added f j ne
            ]
      ]
    ]
