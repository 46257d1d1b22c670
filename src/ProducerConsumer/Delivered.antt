-- ===== src/ProducerConsumer/Delivered.antt =====
-- main-two-cvs-while.c when all threads have returned: what the consumers have got.
use sysprg.Prelude.{
  dec_lt, ltb, if◌then◌else◌, ℕ, ◌+◌, ◌*◌, ◌≤◌, ◌<◌, ◌≡◌, refl, sym, ap, ◌∙◌, inl, inr, true, false,
  List, [], ◌∷◌, ◌++◌, append-nil, length, arith,
}
use mathlib.Core.Path.{subst}
use sysprg.Prelude.Int.{ℤ, pos}
use sysprg.Prelude.Sums.{sum, sum_same, sum_none, sum_all, sum_one, sum_blocks, sum_plus_one}
use sysprg.Buffer.{end_of_stream}
use sysprg.ProducerConsumer.{Config, System, Reach, value, main_id, Pc, done}
use sysprg.ProducerConsumer.Invariant.{Stored, Reach-Inv}
use sysprg.ProducerConsumer.Streams.{
  Within, filled, took, weigh, weigh-append, weigh-length, one_if, occurs, ends_in, Streams,
}
use sysprg.ProducerConsumer.Streams.Kept.{Reach-Streams}
use sysprg.ProducerConsumer.Tally.{
  pick, row, made, consumed, closes, closes-append, closes-ends, sent, Tally,
}
use sysprg.ProducerConsumer.Tally.Kept.{Reach-Tally}
use sysprg.ProducerConsumer.Progress.{Ended}

-- What the thread function of a consumer returns.
abbrev pub result : Pc → ℕ
result (done n) = n
result _ = 0

module _ (cfg : Config) (while_waits : cfg.program.retests ≡ true)
    (two_cvs : cfg.program.one_cv ≡ false) (some_room : 0 < cfg.max)
    (some_consumers : 0 < cfg.consumers) {s : System} (r : Reach cfg s)
    (ended : Ended cfg s.pc) where
  streams : Streams cfg s
  streams = Reach-Streams cfg while_waits two_cvs some_room r

  tally : Tally cfg s
  tally = Reach-Tally cfg while_waits two_cvs some_room r

  stored : Stored cfg.max s.mem
  stored = (Reach-Inv cfg while_waits some_room r).stored

  all_made : (n id : ℕ) → id ≤ main_id cfg → Within n (s.pc id) → filled (s.pc id) ≡ n
  all_made n id le w =
      let (i, e) = ended id le in let same : i ≡ n = subst (Within n) e w in ap filled e ∙ same

  consumer_result :
      (k : ℕ)
      → k < cfg.consumers
      → (took (s.pc (cfg.producers + k)) ≡ 1)
        × (consumed (s.pc (cfg.producers + k)) ≡ result (s.pc (cfg.producers + k)) + 1)
  consumer_result k lt =
      let (n, e) = ended (cfg.producers + k) (omega arith) in rw e (refl, omega arith)

  put_ends : ends_in s.mem.put ≡ cfg.consumers
  put_ends = streams.put_ends ∙ all_made cfg.consumers (main_id cfg) (omega arith) streams.last

  got_ends : ends_in s.mem.got ≡ cfg.consumers
  got_ends =
      streams.got_ends
      ∙ sum_all cfg.consumers (λ k. took (s.pc (cfg.producers + k)))
          (λ k lt. (consumer_result k lt).0)

  put_closes : closes s.mem.put ≡ true
  put_closes = elim tally.closed [
    | inr closed ↦ closed
    | inl none_yet ↦
        absurd
          (omega (arith, none_yet, all_made cfg.consumers (main_id cfg) (omega arith) streams.last))
  ]

  rest_none : (q : List ℤ) → s.mem.put ≡ s.mem.got ++ q → s.mem.got ≡ s.mem.put × (length q ≡ 0)
  rest_none [] e = (sym (e ∙ append-nil s.mem.got), refl)
  rest_none (x ∷ q) e = absurd (
      omega (
        arith,
        ap ends_in e,
        weigh-append (one_if end_of_stream) s.mem.got (x ∷ q),
        put_ends,
        got_ends,
        closes-ends (x ∷ q) (sym (closes-append s.mem.got x q) ∙ ap closes (sym e) ∙ put_closes),
      ))

  -- The weight of all values that the producers make, and of the ends that `main` adds.
  put_weighs :
      (w : ℤ → ℕ)
      → weigh w s.mem.put
        ≡ sum (cfg.producers * cfg.loops) (λ n. w (pos n))
          + sum cfg.consumers (λ i. w end_of_stream)
  put_weighs w = omega (
    arith,
    tally.weighs w,
    sum_same cfg.producers (λ j. sum cfg.loops (λ i. w (pos (j * cfg.loops + i))))
        (λ j. sent cfg w j (filled (s.pc j))) producer_weighs,
    sum_blocks cfg.producers cfg.loops (λ n. w (pos n)),
    ap (sent cfg w (main_id cfg)) (all_made cfg.consumers (main_id cfg) (omega arith) streams.last),
    sum_same cfg.consumers (λ i. w end_of_stream) (λ i. w (value cfg (main_id cfg) i))
        (λ i lt. ap w (main_value i)),
  )
    where
      producer_value : (j i : ℕ) → j < cfg.producers → value cfg j i ≡ pos (j * cfg.loops + i)
      producer_value j i lt = ground arith

      main_value : (i : ℕ) → value cfg (main_id cfg) i ≡ end_of_stream
      main_value i = ground arith

      producer_weighs :
          (j : ℕ)
          → j < cfg.producers
          → sent cfg w j (filled (s.pc j)) ≡ sum cfg.loops (λ i. w (pos (j * cfg.loops + i)))
      producer_weighs j lt =
          ap (sent cfg w j) (all_made cfg.loops j (omega arith) (tally.within j lt))
          ∙ sum_same cfg.loops (λ i. w (pos (j * cfg.loops + i))) (λ i. w (value cfg j i))
              (λ i l. ap w (producer_value j i lt))

  rest : (s.mem.got ≡ s.mem.put) × (length stored.queue ≡ 0)
  rest = rest_none stored.queue stored.order

  each_once :
      (n : ℕ) → occurs (pos n) s.mem.got ≡ (if ltb n (cfg.producers * cfg.loops) then 1 else 0)
  each_once n = omega (
    arith,
    ap (occurs (pos n)) rest.0,
    put_weighs (one_if (pos n)),
    numbers (dec_lt n (cfg.producers * cfg.loops)),
    sum_none cfg.consumers (λ i. one_if (pos n) end_of_stream) (λ i l. refl),
  )
    where
      numbers :
          Dec (n < cfg.producers * cfg.loops)
          → sum (cfg.producers * cfg.loops) (λ m. one_if (pos n) (pos m))
            ≡ (if ltb n (cfg.producers * cfg.loops) then 1 else 0)
      numbers (yes lt) =
          sum_one (cfg.producers * cfg.loops) n (λ m. one_if (pos n) (pos m)) lt (ground arith)
            (λ j ne. ground (arith, ne))
          ∙ ground (arith, lt)
      numbers (no ge) =
          sum_none (cfg.producers * cfg.loops) (λ m. one_if (pos n) (pos m))
            (λ m lt. ground (arith, ge))
          ∙ ground (arith, ge)

  in_order :
      (j : ℕ) → pick cfg j s.mem.got ≡ row cfg j (if ltb j cfg.producers then cfg.loops else 0)
  in_order j =
      ap (pick cfg j) rest.0 ∙ tally.rows j ∙ ap (row cfg j) (numbers (dec_lt j cfg.producers))
    where
      numbers :
          Dec (j < cfg.producers) → made cfg s.pc j ≡ (if ltb j cfg.producers then cfg.loops else 0)
      numbers (yes lt) =
          ap (λ n. if ltb j cfg.producers then n else 0)
            (all_made cfg.loops j (omega arith) (tally.within j lt))
      numbers (no ge) = ground (arith, ge)

  how_many : length s.mem.got ≡ cfg.producers * cfg.loops + cfg.consumers
  how_many = omega (
    arith,
    sym (weigh-length s.mem.got),
    ap (weigh (λ x. 1)) rest.0,
    put_weighs (λ x. 1),
    sum_all (cfg.producers * cfg.loops) (λ n. 1) (λ n lt. refl),
    sum_all cfg.consumers (λ i. 1) (λ i lt. refl),
  )

  results : sum cfg.consumers (λ k. result (s.pc (cfg.producers + k))) ≡ cfg.producers * cfg.loops
  results = omega (
    arith,
    how_many,
    tally.taken,
    sum_same cfg.consumers (λ k. result (s.pc (cfg.producers + k)) + 1)
        (λ k. consumed (s.pc (cfg.producers + k))) (λ k lt. (consumer_result k lt).1),
    sum_plus_one cfg.consumers (λ k. result (s.pc (cfg.producers + k))),
  )

-- When all producers and all consumers have returned and `main` has ended its loop, with two
-- condition variables, tests by `while`, a buffer of at least one slot and at least one consumer:
-- the buffer is empty; of the numbers, those below `producers * loops`, which the producers make,
-- have been taken exactly once, and no other; those of each producer have been taken in the order
-- in which it made them; as many END_OF_STREAMs have been taken as there are
-- consumers; nothing else has been taken; and the counts that the consumers return add up to
-- `producers * loops`.
pub two_cvs_delivers :
    (cfg : Config)
    → cfg.program.retests ≡ true
    → cfg.program.one_cv ≡ false
    → 0 < cfg.max
    → 0 < cfg.consumers
    → {s : System} → Reach cfg s
    → Ended cfg s.pc
    → (s.mem.shared.num_full ≡ 0)
      × ((n : ℕ) → occurs (pos n) s.mem.got ≡ (if ltb n (cfg.producers * cfg.loops) then 1 else 0))
      × ((j : ℕ) → pick cfg j s.mem.got ≡ row cfg j (if ltb j cfg.producers then cfg.loops else 0))
      × (occurs end_of_stream s.mem.got ≡ cfg.consumers)
      × (length s.mem.got ≡ cfg.producers * cfg.loops + cfg.consumers)
      × (sum cfg.consumers (λ k. result (s.pc (cfg.producers + k))) ≡ cfg.producers * cfg.loops)
two_cvs_delivers cfg ws two some_room some_consumers r ended = (
  omega (
    arith,
    (rest cfg ws two some_room some_consumers r ended).1,
    (stored cfg ws two some_room some_consumers r ended).represents.full,
  ),
  each_once cfg ws two some_room some_consumers r ended,
  in_order cfg ws two some_room some_consumers r ended,
  got_ends cfg ws two some_room some_consumers r ended,
  how_many cfg ws two some_room some_consumers r ended,
  results cfg ws two some_room some_consumers r ended,
)
