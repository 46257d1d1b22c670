-- ===== src/ProducerConsumer/Credits/Kept.antt =====
-- Each step of the program keeps `Credits`.
use sysprg.Prelude.{◌<◌, ◌≡◌, ◌≢◌, sym, ap, inl, true, false, update, update_ne, arith}
use mathlib.Core.Path.{subst}
use sysprg.Prelude.Sums.{sum_none}
use sysprg.Buffer.{make_buffer}
use sysprg.ProducerConsumer.{
  Config, System, Step, Reach, init, act, signal_one, signal_none, rouse, start, later,
}
use sysprg.ProducerConsumer.Invariant.{Stored, Reach-Inv}
use sysprg.ProducerConsumer.Credits.{
  waits_room, waits_value, Credits, Signals-done, Rouses-done, Wakes-done, Signals-Wakes, threads,
  still_outside, below,
}
use sysprg.ProducerConsumer.Credits.Moves.{
  Moved, moved, Move-room, Move-values, signal_room, signal_values, rouse_room, rouse_values,
  unheard_room, unheard_values,
}

module _ (cfg : Config) where
  Step-Credits :
      cfg.program.one_cv ≡ false
      → {s t : System} → Step cfg s t
      → Stored cfg.max s.mem
      → Credits cfg.max (threads cfg) s
      → Credits cfg.max (threads cfg) t
  Step-Credits two_cvs {s} (act id {m} {p} le may mv) st old =
      let lt : id < threads cfg = omega arith in
      let d = moved (threads cfg) id s.pc p lt in
      record {
        room = Move-room cfg st old mv d;
        values = Move-values cfg st old mv d;
        outside = still_outside cfg s.pc id p lt old.outside;
      }
  Step-Credits two_cvs {s} (signal_one id j {p} {q} sg w) st old =
      let ltj = below cfg s.pc j (old.outside j) (Wakes-done w) in
      let lti = below cfg s.pc id (old.outside id) (Signals-done sg) in
      let apart : j ≢ id = λ e. Signals-Wakes sg w (ap s.pc (sym e)) in
      let d = moved (threads cfg) j s.pc q ltj in
      let e =
        subst (λ a. Moved (threads cfg) id (update s.pc j q) a p) (update_ne s.pc j id q apart)
          (moved (threads cfg) id (update s.pc j q) p lti) in
      record {
        room = signal_room cfg st old two_cvs sg w d e;
        values = signal_values cfg st old two_cvs sg w d e;
        outside =
            still_outside cfg (update s.pc j q) id p lti
              (still_outside cfg s.pc j q ltj old.outside);
      }
  Step-Credits two_cvs {s} (signal_none id {p} sg none_waits) st old =
      let lt = below cfg s.pc id (old.outside id) (Signals-done sg) in
      let d = moved (threads cfg) id s.pc p lt in
      record {
        room = unheard_room cfg st old sg none_waits d;
        values = unheard_values cfg st old sg none_waits d;
        outside = still_outside cfg s.pc id p lt old.outside;
      }
  Step-Credits two_cvs {s} (rouse j {q} r) st old =
      let lt = below cfg s.pc j (old.outside j) (Rouses-done r) in
      let d = moved (threads cfg) j s.pc q lt in
      record {
        room = rouse_room cfg st old r d;
        values = rouse_values cfg st old r d;
        outside = still_outside cfg s.pc j q lt old.outside;
      }

  init-Credits : Credits cfg.max (threads cfg) (init cfg)
  unfolding make_buffer
  init-Credits = record {
    room = inl (sum_none (threads cfg) (λ j. waits_room ((init cfg).pc j)) (λ j lt. ground arith));
    values =
        inl (sum_none (threads cfg) (λ j. waits_value ((init cfg).pc j)) (λ j lt. ground arith));
    outside = λ j. ground arith;
  }

  pub Reach-Credits :
      cfg.program.one_cv ≡ false
      → cfg.program.retests ≡ true
      → 0 < cfg.max
      → {s : System} → Reach cfg s
      → Credits cfg.max (threads cfg) s
  Reach-Credits two_cvs while_waits some_room start = init-Credits
  Reach-Credits two_cvs while_waits some_room (later {s} r st) =
      Step-Credits two_cvs st (Reach-Inv cfg while_waits some_room r).stored
        (Reach-Credits two_cvs while_waits some_room r)
