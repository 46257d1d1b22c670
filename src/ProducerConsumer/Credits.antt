-- ===== src/ProducerConsumer/Credits.antt =====
-- main-two-cvs-while.c: why no wakeup is lost. While a thread waits for room, the free slots are no
-- more than the threads that are on their way to fill one or to signal that one is free; and the
-- same for a thread that waits for a value.
pub mod Moves
pub mod Kept
use sysprg.Prelude.{
  ℕ, suc, ◌+◌, ◌≤◌, ◌<◌, ◌≡◌, ◌≢◌, refl, sym, ap, ◌∙◌, ◌⊎◌, inl, inr, List, [], ◌∷◌, ◌++◌, length,
  length-append, true, false, update, update_self, update_ne, arith, ℕ_discrete, none, some,
}
use mathlib.Core.Path.{subst}
use sysprg.Prelude.Int.{ℤ}
use sysprg.Prelude.Sums.{sum, sum_none, sum_moved, sum_member}
use sysprg.Buffer.{Shared, ok, do_fill, do_get, make_buffer, empty}
use sysprg.Buffer.Queue.{Represents, Fills, Gets, do_fill-Fills, do_get-Gets}
use sysprg.ProducerConsumer.{
  Config, Mem, System, Move, Step, Reach, value, main_id, Pc, Signals, Wakes, Rouses, init, p_wait,
  p_woken, p_test, p_fill, p_signal, c_wait, c_woken, c_test, c_get, c_signal, done, p_full,
  c_empty, p_put, c_take_out, act, signal_one, signal_none, rouse, p_signals, c_signals, p_rouses,
  c_rouses, start, later, fill_wakes, empty_wakes, fill_wakes_own, empty_wakes_own,
}
use sysprg.ProducerConsumer.Invariant.{Inv, Stored, value-ne, Reach-Inv}

-- A thread that waits for room, and one that will fill a slot or signal that one is free.
abbrev pub waits_room : Pc → ℕ
waits_room (p_wait _) = 1
waits_room _ = 0

abbrev pub brings_room : Pc → ℕ
brings_room (p_woken _) = 1
brings_room (p_test _) = 1
brings_room (p_fill _) = 1
brings_room (c_signal _ _) = 1
brings_room _ = 0

-- A thread that waits for a value, and one that will take one or signal that there is one.
abbrev pub waits_value : Pc → ℕ
waits_value (c_wait _) = 1
waits_value _ = 0

abbrev pub brings_value : Pc → ℕ
brings_value (c_woken _) = 1
brings_value (c_test _) = 1
brings_value (c_get _) = 1
brings_value (p_signal _) = 1
brings_value _ = 0

-- A wait for something of which there are `n`, with the others on their way.
abbrev pub Awaited : ℕ → ℕ → ℕ → Type 0
Awaited waiting n coming = (waiting ≡ 0) ⊎ (n ≤ coming)

abbrev pub total : (Pc → ℕ) → ℕ → (ℕ → Pc) → ℕ
total f n pc = sum n (λ j. f (pc j))

pub record Credits (max n : ℕ) (s : System) : Type 0 where
  pub room :
      Awaited (total waits_room n s.pc) max (s.mem.shared.num_full + total brings_room n s.pc)
  pub values : Awaited (total waits_value n s.pc) s.mem.shared.num_full (total brings_value n s.pc)
  pub outside : (j : ℕ) → (j < n) ⊎ (s.pc j ≡ done 0)

pub Signals-done : {a p : Pc} → Signals a p → a ≢ done 0
Signals-done p_signals e = cc
Signals-done c_signals e = cc

pub Rouses-done : {a p : Pc} → Rouses a p → a ≢ done 0
Rouses-done p_rouses e = cc
Rouses-done c_rouses e = cc

pub Wakes-done : {cfg : Config} {a b q : Pc} → Wakes cfg a b q → b ≢ done 0
Wakes-done fill_wakes e = cc
Wakes-done empty_wakes e = cc
Wakes-done (fill_wakes_own f) e = cc
Wakes-done (empty_wakes_own f) e = cc

pub Signals-Wakes : {cfg : Config} {a b p q : Pc} → Signals a p → Wakes cfg a b q → a ≢ b
Signals-Wakes p_signals fill_wakes e = cc
Signals-Wakes c_signals empty_wakes e = cc
Signals-Wakes p_signals (fill_wakes_own f) e = cc
Signals-Wakes c_signals (empty_wakes_own f) e = cc

module _ (cfg : Config) where
  -- All thread ids are below this.
  abbrev pub threads : ℕ
  threads = suc (main_id cfg)

  pub still_outside :
      (pc : ℕ → Pc) (i : ℕ) (p : Pc)
      → i < threads
      → ((j : ℕ) → (j < threads) ⊎ (pc j ≡ done 0))
      → (j : ℕ) → (j < threads) ⊎ (update pc i p j ≡ done 0)
  still_outside pc i p lt old j = ground (arith, old j)

  pub below : (pc : ℕ → Pc) (j : ℕ) → (j < threads) ⊎ (pc j ≡ done 0) → pc j ≢ done 0 → j < threads
  below pc j (inl lt) ne = lt
  below pc j (inr e) ne = absurd (ne e)
