-- ===== src/ProducerConsumer/Progress.antt =====
-- main-two-cvs-while.c: the threads end; they never all block.
use sysprg.Prelude.{
  ℕ, ◌+◌, ◌-◌, ◌≤◌, ◌<◌, ◌≡◌, ◌≢◌, refl, sym, ap, ◌∙◌, ◌⊎◌, inl, inr, true, false, arith,
  ℕ_discrete, dec_lt,
}
use mathlib.Core.Path.{subst}
use sysprg.Prelude.Sums.{sum, sum_all, sum_short, sum_none, sum_member}
use sysprg.Buffer.{end_of_stream}
use sysprg.ProducerConsumer.{Config, System, Reach, main_id, Pc, p_lock, p_wait, c_wait, done}
use sysprg.ProducerConsumer.Invariant.{Stored, Reach-Inv}
use sysprg.ProducerConsumer.Credits.{
  threads, total, waits_room, brings_room, waits_value, brings_value, Credits,
}
use sysprg.ProducerConsumer.Credits.Kept.{Reach-Credits}
use sysprg.ProducerConsumer.Streams.{
  AllDone, Within, Within-IsMaker, filled, took, ends_in, weigh-append, one_if, weigh-none, Streams,
}
use sysprg.ProducerConsumer.Streams.Kept.{Reach-Streams}
use sysprg.ProducerConsumer.Running.{Goes}
use sysprg.ProducerConsumer.Idle.{
  Sleeps-quiet, taker_waits, value_waiter, Sleeps, Sleeps-done, maker_waits, Idle, goes_or_idles,
}

-- Every producer and every consumer has returned, and `main` has ended its loop.
abbrev pub Ended : (cfg : Config) → (ℕ → Pc) → Type 0
Ended cfg pc = (j : ℕ) → j ≤ main_id cfg → (i : ℕ) × (pc j ≡ done i)

module _ (cfg : Config) (while_waits : cfg.program.retests ≡ true)
    (two_cvs : cfg.program.one_cv ≡ false) (some_room : 0 < cfg.max)
    (some_consumers : 0 < cfg.consumers) {s : System} (r : Reach cfg s) (idle : Idle cfg s.pc) where
  streams : Streams cfg s
  streams = Reach-Streams cfg while_waits two_cvs some_room r

  credits : Credits cfg.max (threads cfg) s
  credits = Reach-Credits cfg two_cvs while_waits some_room r

  stored : Stored cfg.max s.mem
  stored = (Reach-Inv cfg while_waits some_room r).stored

  quiet : (j : ℕ) → j < threads cfg → (brings_room (s.pc j) ≡ 0) × (brings_value (s.pc j) ≡ 0)
  quiet j lt = elim (ℕ_discrete j (main_id cfg)) [
    | no ne ↦ Sleeps-quiet (s.pc j) (idle.workers j (omega (arith, ne)))
    | yes e ↦ elim idle.main_idle [
      | inl sleeps ↦ Sleeps-quiet (s.pc j) (subst (λ k. Sleeps (s.pc k)) (sym e) sleeps)
      | inr (at_start, w) ↦ let f : s.pc j ≡ p_lock 0 = ap s.pc e ∙ at_start in rw f (refl, refl)
    ]
  ]

  no_room_comes : total brings_room (threads cfg) s.pc ≡ 0
  no_room_comes = sum_none (threads cfg) (λ j. brings_room (s.pc j)) (λ j lt. (quiet j lt).0)

  no_value_comes : total brings_value (threads cfg) s.pc ≡ 0
  no_value_comes = sum_none (threads cfg) (λ j. brings_value (s.pc j)) (λ j lt. (quiet j lt).1)

  taken_ends : ends_in s.mem.put ≡ ends_in s.mem.got + ends_in stored.queue
  taken_ends = ap ends_in stored.order ∙ weigh-append (one_if end_of_stream) s.mem.got stored.queue

  consumer_done :
      total waits_value (threads cfg) s.pc ≡ 0
      → (k : ℕ) → k < cfg.consumers
      → took (s.pc (cfg.producers + k)) ≡ 1
  consumer_done none_wait k lt =
      let (i, e) =
        Sleeps-done (s.pc (cfg.producers + k)) (idle.workers (cfg.producers + k) (omega arith))
          (taker_waits (s.pc (cfg.producers + k)) (streams.takers k lt)).0
          (omega (
            arith,
            none_wait,
            sum_member (threads cfg) (cfg.producers + k) (λ j. waits_value (s.pc j)) (omega arith),
          )) in
      ap took e

  all_taken : total waits_value (threads cfg) s.pc ≡ 0 → cfg.consumers ≤ filled (s.pc (main_id cfg))
  all_taken none_wait = omega (
    arith,
    taken_ends,
    streams.put_ends,
    streams.got_ends,
    sum_all cfg.consumers (λ k. took (s.pc (cfg.producers + k))) (consumer_done none_wait),
  )

  producers_done : (i : ℕ) → s.pc (main_id cfg) ≡ done i → AllDone cfg s.pc
  producers_done i e = elim streams.late [
    | inl at_start ↦ absurd (clash (sym e ∙ at_start))
    | inr all ↦ all
  ]
    where
      clash : done i ≢ p_lock 0
      clash e = cc

  done_waits_not :
      (i : ℕ) → s.pc (main_id cfg) ≡ done i → (j : ℕ) → j < threads cfg → waits_room (s.pc j) ≡ 0
  done_waits_not i e j lt = elim (dec_lt j cfg.producers) [
    | yes less ↦ let (k, f) = producers_done i e j less in ap waits_room f
    | no ge ↦ elim (ℕ_discrete j (main_id cfg)) [
      | yes here ↦ ap waits_room (ap s.pc here ∙ e)
      | no ne ↦
          let k : ℕ = j - cfg.producers in
          let f : cfg.producers + k ≡ j = omega (arith, ge) in
          subst (λ j. waits_room (s.pc j) ≡ 0) f
            (taker_waits (s.pc (cfg.producers + k))
              (streams.takers k (omega (arith, ge, ne, lt)))).0
    ]
  ]

  -- `main` does not block once each consumer has its END_OF_STREAM.
  main_ends :
      (p : Pc)
      → s.pc (main_id cfg) ≡ p
      → Within cfg.consumers p
      → Sleeps p
      → cfg.consumers ≤ filled p
      → (i : ℕ) × (s.pc (main_id cfg) ≡ done i)
  main_ends (done i) e w h f = (i, e)
  main_ends (p_wait i) e w h f = absurd (omega arith)
  main_ends (c_wait i) e w h f = absurd w
  main_ends _ e w h f = absurd h

  none_waits_room : total waits_room (threads cfg) s.pc ≡ 0
  none_waits_room = elim credits.room [
    | inl nobody ↦ nobody
    | inr full ↦ elim credits.values [
      | inr none_in ↦ absurd (omega (arith, full, none_in, no_room_comes, no_value_comes))
      | inl nobody ↦ elim idle.main_idle [
        | inr (at_start, w) ↦ absurd (omega (arith, all_taken nobody, ap filled at_start))
        | inl sleeps ↦
            let (i, e) =
              main_ends (s.pc (main_id cfg)) refl streams.last sleeps (all_taken nobody) in
            sum_none (threads cfg) (λ j. waits_room (s.pc j)) (done_waits_not i e)
      ]
    ]
  ]

  main_done : (i : ℕ) × (s.pc (main_id cfg) ≡ done i)
  main_done = elim idle.main_idle [
    | inr (at_start, w) ↦ absurd (omega (arith, none_waits_room))
    | inl sleeps ↦
        Sleeps-done (s.pc (main_id cfg)) sleeps
          (omega (
            arith,
            none_waits_room,
            sum_member (threads cfg) (main_id cfg) (λ j. waits_room (s.pc j)) (omega arith),
          ))
          (maker_waits (s.pc (main_id cfg))
            (Within-IsMaker cfg.consumers (s.pc (main_id cfg)) streams.last))
  ]

  got_all :
      s.mem.shared.num_full ≤ 0
      → sum cfg.consumers (λ k. took (s.pc (cfg.producers + k))) ≡ cfg.consumers
  got_all none_in =
      let (i, e) = main_done in
      let w : i ≡ cfg.consumers = subst (Within cfg.consumers) e streams.last in
      omega (
        arith,
        w,
        ap filled e,
        taken_ends,
        streams.put_ends,
        streams.got_ends,
        weigh-none (one_if end_of_stream) stored.queue
            (omega (arith, none_in, stored.represents.full)),
      )

  consumer_waits_not :
      s.mem.shared.num_full ≤ 0
      → (k : ℕ) → k < cfg.consumers
      → waits_value (s.pc (cfg.producers + k)) ≡ 0
  consumer_waits_not none_in k lt = elim (ℕ_discrete (waits_value (s.pc (cfg.producers + k))) 0) [
    | yes nobody ↦ nobody
    | no waits ↦ absurd (
        omega (
          arith,
          got_all none_in,
          sum_short cfg.consumers k (λ k. took (s.pc (cfg.producers + k))) lt
              (λ j less. (taker_waits (s.pc (cfg.producers + j)) (streams.takers j less)).1)
              (value_waiter (s.pc (cfg.producers + k)) (omega (arith, waits))),
        ))
  ]

  waits_value_not : (j : ℕ) → j < main_id cfg → waits_value (s.pc j) ≡ 0
  waits_value_not j lt = elim (dec_lt j cfg.producers) [
    | yes less ↦ maker_waits (s.pc j) (streams.makers j less)
    | no ge ↦
        let k : ℕ = j - cfg.producers in
        let f : cfg.producers + k ≡ j = omega (arith, ge) in
        let less : k < cfg.consumers = omega (arith, ge, lt) in
        elim credits.values [
          | inl nobody ↦ omega (
            arith,
            nobody,
            sum_member (threads cfg) j (λ k. waits_value (s.pc k)) (omega (arith, lt)),
          )
          | inr none_in ↦
              subst (λ j. waits_value (s.pc j) ≡ 0) f
                (consumer_waits_not (omega (arith, none_in, no_value_comes)) k less)
        ]
  ]

  idle-Ended : Ended cfg s.pc
  idle-Ended j le = elim (ℕ_discrete j (main_id cfg)) [
    | yes e ↦ let (i, f) = main_done in (i, ap s.pc e ∙ f)
    | no ne ↦
        let lt : j < main_id cfg = omega (arith, ne) in
        Sleeps-done (s.pc j) (idle.workers j lt)
          (omega (
            arith,
            none_waits_room,
            sum_member (threads cfg) j (λ j. waits_room (s.pc j)) (omega arith),
          ))
          (waits_value_not j lt)
  ]

-- With two condition variables, tests by `while`, a buffer of at least one slot and at least one
-- consumer, the program never deadlocks: in every state that it can reach, either all producers and all
-- consumers have returned and `main` has added its last END_OF_STREAM, or there is a step in which some thread gets further, and that
-- thread is not only woken with no signal.
pub two_cvs_progress :
    (cfg : Config)
    → cfg.program.retests ≡ true
    → cfg.program.one_cv ≡ false
    → 0 < cfg.max
    → 0 < cfg.consumers
    → {s : System} → Reach cfg s
    → Ended cfg s.pc ⊎ Goes cfg s
two_cvs_progress cfg while_waits two_cvs some_room some_consumers r =
    elim (goes_or_idles cfg while_waits two_cvs some_room r) [
      | inl goes ↦ inr goes
      | inr idle ↦ inl (idle-Ended cfg while_waits two_cvs some_room some_consumers r idle)
    ]
