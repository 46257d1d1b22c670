-- ===== src/ProducerConsumer/Streams.antt =====
-- main-common.c with its threads: each END_OF_STREAM that `main` adds ends one consumer.
pub mod Change
pub mod Kept
use sysprg.Prelude.{
  ℕ, zero, suc, ◌+◌, ◌-◌, ◌*◌, ◌≤◌, ◌<◌, ◌≡◌, ◌≢◌, refl, sym, ap, ◌∙◌, ◌⊎◌, inl, inr, List, [], ◌∷◌,
  ◌++◌, length, true, false, ltb, lt→ltb, ltb_ge, ==-eq, if◌then◌else◌, update, update_self,
  update_ne, arith, ℕ_discrete, dec_lt, Bool-cases,
}
use mathlib.Core.Path.{subst}
use sysprg.Prelude.Int.{ℤ, pos, negsuc}
use sysprg.Prelude.Sums.{sum, sum_none, sum_moved, sum_same, sum_change}
use sysprg.Buffer.{eq_int, end_of_stream, make_buffer}
use sysprg.ProducerConsumer.Credits.{
  threads, below, Signals-done, Rouses-done, Wakes-done, Signals-Wakes,
}
use sysprg.ProducerConsumer.Credits.Kept.{Reach-Credits}
use sysprg.ProducerConsumer.{
  Config, Mem, System, Move, Step, Reach, value, main_id, MayRun, next_round, Pc, Signals, Wakes,
  Rouses, init, p_lock, p_test, p_wait, p_woken, p_fill, p_signal, p_unlock, c_lock, c_test, c_wait,
  c_woken, c_get, c_signal, c_unlock, done, p_take, p_stop, p_full, p_room, p_retake, p_put,
  p_release, c_take, c_empty, c_some, c_retake, c_take_out, c_release, act, signal_one, signal_none,
  rouse, p_signals, c_signals, p_rouses, c_rouses, start, later, fill_wakes, empty_wakes,
  fill_wakes_own, empty_wakes_own,
}

-- The places of a producer or of `main`, and those of a consumer.
abbrev pub IsMaker : Pc → Type 0
IsMaker (c_lock _) = ⊥
IsMaker (c_test _) = ⊥
IsMaker (c_wait _) = ⊥
IsMaker (c_woken _) = ⊥
IsMaker (c_get _) = ⊥
IsMaker (c_signal _ _) = ⊥
IsMaker (c_unlock _ _) = ⊥
IsMaker _ = Unit

abbrev pub IsTaker : Pc → Type 0
IsTaker (c_lock _) = Unit
IsTaker (c_test _) = Unit
IsTaker (c_wait _) = Unit
IsTaker (c_woken _) = Unit
IsTaker (c_get _) = Unit
IsTaker (c_signal _ _) = Unit
IsTaker (c_unlock _ _) = Unit
IsTaker (done _) = Unit
IsTaker _ = ⊥

-- How often a thread has filled.
abbrev pub filled : Pc → ℕ
filled (p_lock i) = i
filled (p_test i) = i
filled (p_wait i) = i
filled (p_woken i) = i
filled (p_fill i) = i
filled (p_signal i) = suc i
filled (p_unlock i) = suc i
filled (done i) = i
filled _ = 0

-- A loop of `n` rounds.
abbrev pub Within : ℕ → Pc → Type 0
Within n (p_lock i) = i ≤ n
Within n (p_test i) = i < n
Within n (p_wait i) = i < n
Within n (p_woken i) = i < n
Within n (p_fill i) = i < n
Within n (p_signal i) = i < n
Within n (p_unlock i) = i < n
Within n (done i) = i ≡ n
Within n _ = ⊥

abbrev pub one_if : ℤ → ℤ → ℕ
one_if v x = if eq_int x v then 1 else 0

-- A consumer that has its END_OF_STREAM.
abbrev pub took : Pc → ℕ
took (c_signal _ v) = one_if end_of_stream v
took (c_unlock _ v) = one_if end_of_stream v
took (done _) = 1
took _ = 0

-- The sum of a weight over the values of a list.
unfoldable pub weigh : (ℤ → ℕ) → List ℤ → ℕ
weigh w [] = 0
weigh w (x ∷ xs) = w x + weigh w xs

-- How often a value occurs.
abbrev pub occurs : ℤ → List ℤ → ℕ
occurs v = weigh (one_if v)

abbrev pub ends_in : List ℤ → ℕ
ends_in = occurs end_of_stream

pub weigh-append : (w : ℤ → ℕ) (xs ys : List ℤ) → weigh w (xs ++ ys) ≡ weigh w xs + weigh w ys
unfolding weigh
weigh-append w [] ys = omega arith
weigh-append w (x ∷ xs) ys = omega (arith, weigh-append w xs ys)

pub weigh-nil : (w : ℤ → ℕ) → weigh w [] ≡ 0
unfolding weigh
weigh-nil w = refl

pub weigh-none : (w : ℤ → ℕ) (q : List ℤ) → length q ≡ 0 → weigh w q ≡ 0
weigh-none w [] h = weigh-nil w
weigh-none w (x ∷ q) h = absurd (omega (arith, h))

pub weigh-last : (w : ℤ → ℕ) (xs : List ℤ) (x : ℤ) → weigh w (xs ++ x ∷ []) ≡ weigh w xs + w x
unfolding weigh
weigh-last w xs x = omega (arith, weigh-append w xs (x ∷ []))

pub weigh-length : (xs : List ℤ) → weigh (λ x. 1) xs ≡ length xs
unfolding weigh
weigh-length [] = refl
weigh-length (x ∷ xs) = omega (arith, weigh-length xs)

pub Within-IsMaker : (n : ℕ) (p : Pc) → Within n p → IsMaker p
Within-IsMaker n (p_lock i) h = tt
Within-IsMaker n (c_lock i) h = absurd h
Within-IsMaker n p h = ground arith

pub Within-filled : (n : ℕ) (p : Pc) → Within n p → filled p ≤ n
Within-filled n (p_lock i) h = h
Within-filled n p h = ground arith

module _ (cfg : Config) where
  abbrev pub AllDone : (ℕ → Pc) → Type 0
  AllDone pc = (j : ℕ) → j < cfg.producers → (i : ℕ) × (pc j ≡ done i)

  pub record Streams (s : System) : Type 0 where
    pub makers : (j : ℕ) → j < cfg.producers → IsMaker (s.pc j)
    pub takers : (j : ℕ) → j < cfg.consumers → IsTaker (s.pc (cfg.producers + j))
    pub last : Within cfg.consumers (s.pc (main_id cfg))
    pub put_ends : ends_in s.mem.put ≡ filled (s.pc (main_id cfg))
    pub got_ends : ends_in s.mem.got ≡ sum cfg.consumers (λ j. took (s.pc (cfg.producers + j)))
    pub late : (s.pc (main_id cfg) ≡ p_lock 0) ⊎ AllDone s.pc
