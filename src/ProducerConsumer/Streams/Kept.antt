-- ===== src/ProducerConsumer/Streams/Kept.antt =====
-- Each step of the program keeps `Streams`.
use sysprg.Prelude.{
  update_case, ℕ, suc, ◌+◌, ◌-◌, ◌<◌, ◌≡◌, ◌≢◌, sym, ap, ◌∙◌, ◌⊎◌, inl, inr, true, false, update,
  update_self, update_ne, arith, ℕ_discrete, dec_lt,
}
use mathlib.Core.Path.{subst}
use sysprg.Prelude.Sums.{sum, sum_none, sum_past, sum_off}
use sysprg.Buffer.{make_buffer}
use sysprg.ProducerConsumer.Credits.{
  threads, below, Signals-done, Rouses-done, Wakes-done, Signals-Wakes,
}
use sysprg.ProducerConsumer.Credits.Kept.{Reach-Credits}
use sysprg.Buffer.{end_of_stream}
use sysprg.ProducerConsumer.{
  Config, Mem, System, Step, Reach, main_id, Pc, Signals, Wakes, Rouses, init, p_lock, done, act,
  signal_one, signal_none, rouse, p_signals, c_signals, p_rouses, c_rouses, start, later,
  fill_wakes, empty_wakes, fill_wakes_own, empty_wakes_own,
}
use sysprg.ProducerConsumer.Streams.{
  weigh-nil, one_if, IsMaker, IsTaker, Within, Within-IsMaker, filled, took, ends_in, AllDone,
  Streams,
}
use sysprg.ProducerConsumer.Streams.Change.{Change, Move-Change, Signals-Change, Rouses-Change}

module _ (cfg : Config) where
  pub role :
      (id : ℕ)
      → id < threads cfg
      → (id < cfg.producers)
        ⊎ ((k : ℕ) × (k < cfg.consumers) × (id ≡ cfg.producers + k))
        ⊎ (id ≡ main_id cfg)
  role id lt = elim (dec_lt id cfg.producers) [
    | yes less ↦ inl less
    | no ge ↦ elim (dec_lt id (main_id cfg)) [
      | yes less ↦ inr (inl (id - cfg.producers, omega (arith, ge), omega (arith, ge)))
      | no above ↦ inr (inr (omega (arith, above)))
    ]
  ]

  pub main-IsMaker : {s : System} {id : ℕ} → Streams cfg s → id ≡ main_id cfg → IsMaker (s.pc id)
  main-IsMaker {s} {id} streams e =
      Within-IsMaker cfg.consumers (s.pc id)
        (subst (λ k. Within cfg.consumers (s.pc k)) (sym e) streams.last)

  pub consumer-IsTaker :
      {s : System} {id : ℕ}
      → Streams cfg s
      → (k : ℕ) → k < cfg.consumers
      → id ≡ cfg.producers + k
      → IsTaker (s.pc id)
  consumer-IsTaker {s} streams k less e =
      subst (λ j. IsTaker (s.pc j)) (sym e) (streams.takers k less)

  module _ {id : ℕ} (m m' : Mem) {pc : ℕ → Pc} {p' : Pc}
      (old : Streams cfg (record { mem = m; pc = pc })) (lt : id < suc (main_id cfg))
      (change : Change cfg id m.put m'.put m.got m'.got (pc id) p')
      (ready : id ≡ main_id cfg → (pc id ≢ p_lock 0) ⊎ AllDone cfg pc) where
    -- The thread is a producer, a consumer or `main`.
    no_put : id ≢ main_id cfg → (id < cfg.producers) ⊎ IsTaker (pc id)
    no_put ne = elim (role id lt) [
      | inl less ↦ inl less
      | inr (inl (k, less, e)) ↦ inr (consumer-IsTaker old k less e)
      | inr (inr e) ↦ absurd (ne e)
    ]

    Change-put : ends_in m'.put ≡ filled (update pc id p' (main_id cfg))
    Change-put = elim (ℕ_discrete id (main_id cfg)) [
      | yes e ↦
          let a : filled (pc id) ≡ filled (pc (main_id cfg)) = ap (λ k. filled (pc k)) e in
          let b : filled (update pc id p' id) ≡ filled (update pc id p' (main_id cfg)) =
            ap (λ k. filled (update pc id p' k)) e in
          let c : filled (update pc id p' id) ≡ filled p' = ap filled (update_self pc id) in
          let d : ends_in m'.put + filled (pc id) ≡ ends_in m.put + filled p' =
            change.puts (omega (arith, e)) (main-IsMaker old e) in
          omega (arith, a, b, c, d, old.put_ends)
      | no ne ↦
          change.puts_none (no_put ne)
          ∙ old.put_ends
          ∙ ap filled (sym (update_ne pc id (main_id cfg) p' ne))
    ]

    abbrev index : ℕ → ℕ
    index k = cfg.producers + k

    abbrev Moved : ℕ → Type 0
    Moved i =
        sum cfg.consumers (λ k. took (update pc i p' (index k))) + took (pc i)
        ≡ sum cfg.consumers (λ k. took (pc (index k))) + took p'

    got_by_maker :
        ((k : ℕ) → k < cfg.consumers → id ≢ index k)
        → IsMaker (pc id)
        → ends_in m'.got ≡ sum cfg.consumers (λ k. took (update pc id p' (index k)))
    got_by_maker apart maker =
        change.gets_none maker
        ∙ old.got_ends
        ∙ sym (sum_off (λ k. took) cfg.consumers id index pc p' apart)

    Change-got : ends_in m'.got ≡ sum cfg.consumers (λ k. took (update pc id p' (index k)))
    Change-got = elim (role id lt) [
      | inl less ↦ got_by_maker (λ k l. omega arith) (old.makers id less)
      | inr (inr e) ↦ got_by_maker (λ k l. omega (arith, e)) (main-IsMaker old e)
      | inr (inl (k, less, e)) ↦ omega (
        arith,
        change.gets (consumer-IsTaker old k less e),
        old.got_ends,
        subst (λ i. Moved i) (sym e) (sum_past took cfg.consumers cfg.producers k pc p' less),
      )
    ]

    still_done : AllDone cfg pc → AllDone cfg (update pc id p')
    still_done all j less = elim (ℕ_discrete id j) [
      | yes e ↦ let (i, f) = all j less in absurd (change.goes_on i (ap pc e ∙ f))
      | no ne ↦ let (i, f) = all j less in (i, update_ne pc id j p' ne ∙ f)
    ]

    Change-late : (update pc id p' (main_id cfg) ≡ p_lock 0) ⊎ AllDone cfg (update pc id p')
    Change-late = elim old.late [
      | inr all ↦ inr (still_done all)
      | inl e ↦ elim (ℕ_discrete id (main_id cfg)) [
        | yes here ↦ elim (ready here) [
          | inl ne ↦ absurd (ne (ap pc here ∙ e))
          | inr all ↦ inr (still_done all)
        ]
        | no ne ↦ inl (update_ne pc id (main_id cfg) p' ne ∙ e)
      ]
    ]

    Change-Streams : Streams cfg (record { mem = m'; pc = update pc id p' })
    Change-Streams = record {
      makers = λ j less.
          update_case IsMaker pc id j p'
            (λ e. change.maker (subst (λ k. IsMaker (pc k)) (sym e) (old.makers j less)))
            (λ ne. old.makers j less);
      takers = λ k less.
          update_case IsTaker pc id (cfg.producers + k) p'
            (λ e. change.taker (consumer-IsTaker old k less e)) (λ ne. old.takers k less);
      last =
          update_case (Within cfg.consumers) pc id (main_id cfg) p'
            (λ e.
              change.within (omega (arith, e))
                (subst (λ j. Within cfg.consumers (pc j)) (sym e) old.last))
            (λ ne. old.last);
      put_ends = Change-put;
      got_ends = Change-got;
      late = Change-late;
    }

  Signals-late : {p q : Pc} → Signals p q → p ≢ p_lock 0
  Signals-late p_signals e = cc
  Signals-late c_signals e = cc

  Rouses-late : {p q : Pc} → Rouses p q → p ≢ p_lock 0
  Rouses-late p_rouses e = cc
  Rouses-late c_rouses e = cc

  pub Wakes-Rouses : {a b q : Pc} → Wakes cfg a b q → Rouses b q
  Wakes-Rouses fill_wakes = c_rouses
  Wakes-Rouses empty_wakes = p_rouses
  Wakes-Rouses (fill_wakes_own e) = p_rouses
  Wakes-Rouses (empty_wakes_own e) = c_rouses

  pub roused :
      {m : Mem} {pc : ℕ → Pc} {j : ℕ} {q : Pc}
      → Streams cfg (record { mem = m; pc = pc })
      → j < threads cfg
      → Rouses (pc j) q
      → Streams cfg (record { mem = m; pc = update pc j q })
  roused {m} old lt r =
      Change-Streams m m old lt (Rouses-Change cfg m.put m.got r) (λ e. inl (Rouses-late r))

  signalled :
      {m : Mem} {pc : ℕ → Pc} {id : ℕ} {p : Pc}
      → Streams cfg (record { mem = m; pc = pc })
      → id < threads cfg
      → Signals (pc id) p
      → Streams cfg (record { mem = m; pc = update pc id p })
  signalled {m} old lt sg =
      Change-Streams m m old lt (Signals-Change cfg m.put m.got sg) (λ e. inl (Signals-late sg))

  module _ {s : System} (outside : (j : ℕ) → (j < threads cfg) ⊎ (s.pc j ≡ done 0))
      (old : Streams cfg s) where
    Step-Streams : {t : System} → Step cfg s t → Streams cfg t
    Step-Streams (act id {m} {p} le may mv) =
        Change-Streams s.mem m old (omega arith) (Move-Change cfg mv) (λ e. inr (may e))
    Step-Streams (signal_none id sg waits) =
        signalled old (below cfg s.pc id (outside id) (Signals-done sg)) sg
    Step-Streams (rouse j r) = roused old (below cfg s.pc j (outside j) (Rouses-done r)) r
    Step-Streams (signal_one id j {p} {q} sg w) =
        let apart : j ≢ id = λ e. Signals-Wakes sg w (ap s.pc (sym e)) in
        signalled (roused old (below cfg s.pc j (outside j) (Wakes-done w)) (Wakes-Rouses w))
          (below cfg s.pc id (outside id) (Signals-done sg))
          (subst (λ a. Signals a p) (sym (update_ne s.pc j id q apart)) sg)

  init-Streams : Streams cfg (init cfg)
  unfolding make_buffer
  init-Streams = record {
    makers = λ j lt. ground arith;
    takers = λ k lt. ground arith;
    last = ground arith;
    put_ends = ground (arith, weigh-nil (one_if end_of_stream));
    got_ends =
        weigh-nil (one_if end_of_stream) ∙ sym (sum_none cfg.consumers _ (λ k lt. ground arith));
    late = inl (ground arith);
  }

  pub Reach-Streams :
      cfg.program.retests ≡ true
      → cfg.program.one_cv ≡ false
      → 0 < cfg.max
      → {s : System} → Reach cfg s
      → Streams cfg s
  Reach-Streams while_waits two_cvs some_room start = init-Streams
  Reach-Streams while_waits two_cvs some_room (later r st) =
      Step-Streams (Reach-Credits cfg two_cvs while_waits some_room r).outside
        (Reach-Streams while_waits two_cvs some_room r) st
