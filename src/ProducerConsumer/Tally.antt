-- ===== src/ProducerConsumer/Tally.antt =====
-- main-common.c with its threads: what has gone into the buffer and how much has come out, by what
-- each thread has done.
pub mod Passes
pub mod Change
pub mod Rows
pub mod Kept
use sysprg.Prelude.{
  zero, leb, ltb, ◌&&◌, if◌then◌else◌, ℕ, zero, suc, ◌+◌, ◌*◌, ◌≤◌, ◌<◌, ◌≡◌, ◌≢◌, refl, sym, ap,
  ◌∙◌, ◌⊎◌, inl, inr, Bool, true, false, List, [], ◌∷◌, ◌++◌, length, length-append, ltb,
  if◌then◌else◌, update, update_self, update_ne, update_case, arith, ℕ_discrete, dec_lt,
}
use mathlib.Core.Path.{subst}
use sysprg.Prelude.Int.{ℤ, pos, negsuc}
use sysprg.Prelude.Sums.{sum, sum_none, sum_at, sum_past, sum_off}
use sysprg.Buffer.{eq_int, end_of_stream}
use sysprg.ProducerConsumer.{
  Config, Mem, System, Move, Step, Reach, value, rounds, main_id, MayRun, Pc, Signals, Wakes,
  Rouses, init, next_round, p_lock, p_test, p_wait, p_woken, p_fill, p_signal, p_unlock, c_lock,
  c_test, c_wait, c_woken, c_get, c_signal, c_unlock, done, p_take, p_stop, p_full, p_room,
  p_retake, p_put, p_release, c_take, c_empty, c_some, c_retake, c_take_out, c_release, act,
  signal_one, signal_none, rouse, p_signals, c_signals, p_rouses, c_rouses, start, later,
  fill_wakes, empty_wakes, fill_wakes_own, empty_wakes_own,
}
use sysprg.ProducerConsumer.Credits.{
  threads, below, Signals-done, Rouses-done, Wakes-done, Signals-Wakes,
}
use sysprg.ProducerConsumer.Credits.Kept.{Reach-Credits}
use sysprg.ProducerConsumer.Streams.{
  ends_in, IsMaker, IsTaker, Within, Within-IsMaker, filled, weigh, weigh-nil, weigh-last, one_if,
  AllDone, Streams,
}
use sysprg.ProducerConsumer.Streams.Kept.{role, Wakes-Rouses, Reach-Streams}

-- How many values a consumer has taken.
abbrev pub consumed : Pc → ℕ
consumed (c_lock n) = n
consumed (c_test n) = n
consumed (c_wait n) = n
consumed (c_woken n) = n
consumed (c_get n) = n
consumed (c_signal n _) = suc n
consumed (c_unlock n _) = suc n
consumed (done n) = suc n
consumed _ = 0

-- The last value is END_OF_STREAM.
pub closes : List ℤ → Bool
closes [] = false
closes (v ∷ []) = eq_int v end_of_stream
closes (_ ∷ v ∷ vs) = closes (v ∷ vs)

pub closes-last : (vs : List ℤ) (v : ℤ) → closes (vs ++ v ∷ []) ≡ eq_int v end_of_stream
unfolding closes
closes-last [] v = refl
closes-last (w ∷ []) v = refl
closes-last (w ∷ x ∷ vs) v = closes-last (x ∷ vs) v

pub closes-append : (vs : List ℤ) (x : ℤ) (q : List ℤ) → closes (vs ++ x ∷ q) ≡ closes (x ∷ q)
unfolding closes
closes-append [] x q = refl
closes-append (v ∷ []) x q = refl
closes-append (v ∷ w ∷ vs) x q = closes-append (w ∷ vs) x q

pub closes-ends : (vs : List ℤ) → closes vs ≡ true → 0 < ends_in vs
unfolding closes weigh
closes-ends [] h = absurd (cc)
closes-ends (v ∷ []) h = ground (arith, h)
closes-ends (v ∷ w ∷ vs) h = omega (arith, closes-ends (w ∷ vs) h)

both_kept :
    {A : Type 0} (a b : Bool) (x v : A) (xs : List A)
    → (if a then x ∷ (if b then xs ++ v ∷ [] else xs) else (if b then xs ++ v ∷ [] else xs))
      ≡ (if b then (if a then x ∷ xs else xs) ++ v ∷ [] else (if a then x ∷ xs else xs))
both_kept true true x v xs = refl
both_kept true false x v xs = refl
both_kept false true x v xs = refl
both_kept false false x v xs = refl

later_block : (l j k : ℕ) → j < k → j * l + l ≤ k * l
later_block l j zero lt = absurd (omega arith)
later_block l j (suc k) lt = elim (ℕ_discrete j k) [
  | yes e ↦ let a : j * l ≡ k * l = ap (λ m. m * l) e in omega (arith, a, suc_mul k l)
  | no ne ↦ omega (arith, later_block l j k (omega (arith, ne)), suc_mul k l)
]
  where
    suc_mul : (m n : ℕ) → suc m * n ≡ m * n + n
    suc_mul m n = grind arith

-- The producers' blocks of numbers do not overlap.
pub block_alone : (l j k i : ℕ) → i < l → j * l ≤ k * l + i → k * l + i < j * l + l → j ≡ k
block_alone l j k i lt above below = elim (dec_lt j k) [
  | yes less ↦ absurd (omega (arith, later_block l j k less))
  | no ge ↦ elim (dec_lt k j) [
    | yes more ↦ absurd (omega (arith, later_block l k j more))
    | no le ↦ omega (arith, ge, le)
  ]
]

module _ (cfg : Config) where
  -- The weight of the first `n` values of thread `id`.
  abbrev pub sent : (ℤ → ℕ) → ℕ → ℕ → ℕ
  sent w id n = sum n (λ i. w (value cfg id i))

  -- Whether a value is one of those of producer `j`.
  abbrev pub is_from : ℕ → ℤ → Bool
  is_from j (pos n) = leb (j * cfg.loops) n && ltb n (j * cfg.loops + cfg.loops)
  is_from j (negsuc _) = false

  -- The values of producer `j` in a list, in their order.
  pub pick : ℕ → List ℤ → List ℤ
  pick j [] = []
  pick j (v ∷ vs) = if is_from j v then v ∷ pick j vs else pick j vs

  pub pick-nil : (j : ℕ) → pick j [] ≡ []
  unfolding pick
  pick-nil j = refl

  pub pick-last :
      (j : ℕ) (vs : List ℤ) (v : ℤ)
      → pick j (vs ++ v ∷ []) ≡ (if is_from j v then pick j vs ++ v ∷ [] else pick j vs)
  unfolding pick
  pick-last j [] v = refl
  pick-last j (x ∷ vs) v =
      ap (λ l. if is_from j x then x ∷ l else l) (pick-last j vs v)
      ∙ both_kept (is_from j x) (is_from j v) x v (pick j vs)

  -- The first `n` values of producer `j`.
  pub row : ℕ → ℕ → List ℤ
  row j zero = []
  row j (suc n) = row j n ++ pos (j * cfg.loops + n) ∷ []

  pub row-suc : (j n : ℕ) → row j (suc n) ≡ row j n ++ pos (j * cfg.loops + n) ∷ []
  unfolding row
  row-suc j n = refl

  pub row-zero : (j : ℕ) → row j 0 ≡ []
  unfolding row
  row-zero j = refl

  -- How many values producer `j` has put.
  abbrev pub made : (ℕ → Pc) → ℕ → ℕ
  made pc j = if ltb j cfg.producers then filled (pc j) else 0

  pub record Tally (s : System) : Type 0 where
    pub within : (j : ℕ) → j < cfg.producers → Within cfg.loops (s.pc j)
    pub closed : (filled (s.pc (main_id cfg)) ≡ 0) ⊎ (closes s.mem.put ≡ true)
    pub weighs :
        (w : ℤ → ℕ)
        → weigh w s.mem.put
          ≡ sum cfg.producers (λ j. sent w j (filled (s.pc j)))
            + sent w (main_id cfg) (filled (s.pc (main_id cfg)))
    pub rows : (j : ℕ) → pick j s.mem.put ≡ row j (made s.pc j)
    pub taken : length s.mem.got ≡ sum cfg.consumers (λ k. consumed (s.pc (cfg.producers + k)))
