-- ===== src/ProducerConsumer/Credits/Moves.antt =====
-- One step, and the free slots and the values that are waited for.
use sysprg.Prelude.{
  ℕ, ◌+◌, ◌<◌, ◌≡◌, ◌≢◌, refl, inl, inr, List, [], ◌∷◌, length-append, false, update, arith,
}
use sysprg.Prelude.Int.{ℤ}
use sysprg.Prelude.Sums.{sum_none, sum_moved}
use sysprg.Buffer.{Shared, ok, do_fill, do_get, empty}
use sysprg.Buffer.Queue.{Represents, Fills, Gets, do_fill-Fills, do_get-Gets}
use sysprg.ProducerConsumer.{
  Config, Mem, Move, value, Pc, Signals, Wakes, Rouses, p_wait, p_woken, p_signal, c_wait, c_woken,
  c_signal, p_full, c_empty, p_put, c_take_out, p_signals, c_signals, p_rouses, c_rouses,
  fill_wakes, empty_wakes, fill_wakes_own, empty_wakes_own,
}
use sysprg.ProducerConsumer.Invariant.{Stored, value-ne}
use sysprg.ProducerConsumer.Credits.{
  waits_room, brings_room, waits_value, brings_value, Awaited, total, Credits,
}

pub fill_counts :
    {max : ℕ} {m : Mem} (v : ℤ) {t : Shared}
    → v ≢ empty
    → do_fill v m.shared ≡ ok t
    → Stored max m
    → t.num_full ≡ m.shared.num_full + 1
fill_counts {m} v {t} ne f st =
    let fills : Fills m.shared.max v st.queue (ok t) = rw f at (do_fill-Fills v ne st.represents) in
    omega (arith, fills.1.full, st.represents.full, length-append st.queue (v ∷ []))

pub get_counts :
    (m : Mem) (v : ℤ) (t : Shared) (q : List ℤ)
    → Represents m.shared q
    → do_get m.shared ≡ ok (v, t)
    → m.shared.num_full ≡ t.num_full + 1
get_counts m v t q r f = go q r (rw f at (do_get-Gets q r))
  where
    go :
        (q : List ℤ)
        → Represents m.shared q
        → Gets m.shared.max q (ok (v, t))
        → m.shared.num_full ≡ t.num_full + 1
    go [] r g = absurd g
    go (x ∷ q) r (e, rep, sz) = omega (arith, r.full, rep.full)

-- The four totals after thread `i` has gone to `p`.
pub record Moved (n i : ℕ) (pc : ℕ → Pc) (p p' : Pc) : Type 0 where
  pub room_waits :
      total waits_room n (update pc i p') + waits_room p ≡ total waits_room n pc + waits_room p'
  pub room_comes :
      total brings_room n (update pc i p') + brings_room p ≡ total brings_room n pc + brings_room p'
  pub value_waits :
      total waits_value n (update pc i p') + waits_value p ≡ total waits_value n pc + waits_value p'
  pub value_comes :
      total brings_value n (update pc i p') + brings_value p
      ≡ total brings_value n pc + brings_value p'

pub moved : (n i : ℕ) (pc : ℕ → Pc) (p' : Pc) → i < n → Moved n i pc (pc i) p'
moved n i pc p' lt = record {
  room_waits = sum_moved waits_room n i pc p' lt;
  room_comes = sum_moved brings_room n i pc p' lt;
  value_waits = sum_moved waits_value n i pc p' lt;
  value_comes = sum_moved brings_value n i pc p' lt;
}

no_room_waiter :
    (cfg : Config) {v : ℤ} {k : ℕ} (p : Pc)
    → ((q : Pc) → ¬ Wakes cfg (c_signal k v) p q)
    → waits_room p ≡ 0
no_room_waiter cfg (p_wait i) h = absurd (h (p_woken i) empty_wakes)
no_room_waiter cfg _ h = refl

no_value_waiter :
    (cfg : Config) {k : ℕ} (p : Pc) → ((q : Pc) → ¬ Wakes cfg (p_signal k) p q) → waits_value p ≡ 0
no_value_waiter cfg (c_wait i) h = absurd (h (c_woken i) fill_wakes)
no_value_waiter cfg _ h = refl

module _ (cfg : Config) {n id : ℕ} {m : Mem} {pc : ℕ → Pc} (stored : Stored cfg.max m)
    (old : Credits cfg.max n (record { mem = m; pc = pc })) where
  pub Move-room :
      {p p' : Pc} {m' : Mem}
      → Move cfg id m p m' p'
      → Moved n id pc p p'
      → Awaited
          (total waits_room n (update pc id p'))
          cfg.max
          (m'.shared.num_full + total brings_room n (update pc id p'))
  Move-room (p_put {i} f) d =
      ground (arith, old.room, fill_counts (value cfg id i) (value-ne cfg id i) f stored)
  Move-room (c_take_out {v} {s} f) d =
      ground (arith, old.room, get_counts m v s stored.queue stored.represents f)
  Move-room (p_full e) d = inr (omega (arith, e))
  Move-room mv d = ground (arith, old.room)

  pub Move-values :
      {p p' : Pc} {m' : Mem}
      → Move cfg id m p m' p'
      → Moved n id pc p p'
      → Awaited
          (total waits_value n (update pc id p'))
          m'.shared.num_full
          (total brings_value n (update pc id p'))
  Move-values (p_put {i} f) d =
      ground (arith, old.values, fill_counts (value cfg id i) (value-ne cfg id i) f stored)
  Move-values (c_take_out {v} {s} f) d =
      ground (arith, old.values, get_counts m v s stored.queue stored.represents f)
  Move-values (c_empty e) d = inr (omega (arith, e))
  Move-values mv d = ground (arith, old.values)

  module _ (two_cvs : cfg.program.one_cv ≡ false) {j : ℕ} where
    pub signal_room :
        {a p b q : Pc}
        → Signals a p
        → Wakes cfg a b q
        → Moved n j pc b q
        → Moved n id (update pc j q) a p
        → Awaited
            (total waits_room n (update (update pc j q) id p))
            cfg.max
            (m.shared.num_full + total brings_room n (update (update pc j q) id p))
    signal_room p_signals fill_wakes d e = ground (arith, old.room)
    signal_room c_signals empty_wakes d e = ground (arith, old.room)
    signal_room p_signals (fill_wakes_own f) d e = absurd (cc)
    signal_room c_signals (empty_wakes_own f) d e = absurd (cc)

    pub signal_values :
        {a p b q : Pc}
        → Signals a p
        → Wakes cfg a b q
        → Moved n j pc b q
        → Moved n id (update pc j q) a p
        → Awaited
            (total waits_value n (update (update pc j q) id p))
            m.shared.num_full
            (total brings_value n (update (update pc j q) id p))
    signal_values p_signals fill_wakes d e = ground (arith, old.values)
    signal_values c_signals empty_wakes d e = ground (arith, old.values)
    signal_values p_signals (fill_wakes_own f) d e = absurd (cc)
    signal_values c_signals (empty_wakes_own f) d e = absurd (cc)

  -- A thread wakes by itself.
  pub rouse_room :
      {p q : Pc}
      → Rouses p q
      → Moved n id pc p q
      → Awaited
          (total waits_room n (update pc id q))
          cfg.max
          (m.shared.num_full + total brings_room n (update pc id q))
  rouse_room p_rouses d = ground (arith, old.room)
  rouse_room c_rouses d = ground (arith, old.room)

  pub rouse_values :
      {p q : Pc}
      → Rouses p q
      → Moved n id pc p q
      → Awaited
          (total waits_value n (update pc id q))
          m.shared.num_full
          (total brings_value n (update pc id q))
  rouse_values p_rouses d = ground (arith, old.values)
  rouse_values c_rouses d = ground (arith, old.values)

  -- A signal that nobody waits for.
  pub unheard_room :
      {a p : Pc}
      → Signals a p
      → ((j : ℕ) (q : Pc) → ¬ Wakes cfg a (pc j) q)
      → Moved n id pc a p
      → Awaited
          (total waits_room n (update pc id p))
          cfg.max
          (m.shared.num_full + total brings_room n (update pc id p))
  unheard_room p_signals h d = ground (arith, old.room)
  unheard_room c_signals h d = inl (
      omega (
        arith,
        d.room_waits,
        sum_none n (λ j. waits_room (pc j)) (λ j lt. no_room_waiter cfg (pc j) (h j)),
      ))

  pub unheard_values :
      {a p : Pc}
      → Signals a p
      → ((j : ℕ) (q : Pc) → ¬ Wakes cfg a (pc j) q)
      → Moved n id pc a p
      → Awaited
          (total waits_value n (update pc id p))
          m.shared.num_full
          (total brings_value n (update pc id p))
  unheard_values c_signals h d = ground (arith, old.values)
  unheard_values p_signals h d = inl (
      omega (
        arith,
        d.value_waits,
        sum_none n (λ j. waits_value (pc j)) (λ j lt. no_value_waiter cfg (pc j) (h j)),
      ))
