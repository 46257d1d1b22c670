-- ===== src/NoLock/Shares.antt =====
-- vector-nolock.c: how much the threads have added to a slot.
use mathlib.Core.Logic.{if_pos, if_neg}
use sysprg.Prelude.{
  ℕ, zero, suc, ◌+◌, ◌*◌, ◌<◌, ◌≡◌, ◌≢◌, refl, false, ==_refl, ap, ◌∙◌, ltb, ltb_ge, lt→ltb, ◌==◌,
  ==-ne, if◌then◌else◌, replicate, get_or, update, update_self, update_ne, ℕ_discrete, arith,
}
use sysprg.Prelude.Sums.{sum, sum_same, sum_change}
use sysprg.VectorAdd.{Config}
use sysprg.NoLock.{Pc, at, adding, dst, src}

-- How often a thread has added to slot `k`.
abbrev pub times : Pc → ℕ → ℕ
times (at r i) k = r + (if ltb k i then 1 else 0)
times (adding r i value) k = r + (if ltb k i then 1 else 0)

pub sum_zero : (n : ℕ) (f : ℕ → ℕ) → ((j : ℕ) → j < n → f j ≡ 0) → sum n f ≡ 0
sum_zero zero f h = refl
sum_zero (suc n) f h = omega (arith, sum_zero n f (λ j lt. h j (omega arith)), h n (omega arith))

pub get_or-replicate : (n k x : ℕ) → k < n → get_or (replicate n x) k 0 ≡ x
get_or-replicate zero k x h = absurd (omega arith)
get_or-replicate (suc n) zero x h = refl
get_or-replicate (suc n) (suc k) x h = get_or-replicate n k x (omega arith)

module _ (cfg : Config) where
  -- What thread `j` has added to slot `k` of vector `x`.
  abbrev pub share : (ℕ → Pc) → ℕ → ℕ → ℕ → ℕ
  share pc x k j = if dst cfg j == x then times (pc j) k * src cfg j else 0

  times-update :
      (pc : ℕ → Pc) (j : ℕ) (p : Pc) (k : ℕ)
      → times p k ≡ times (pc j) k
      → (l : ℕ) → times (update pc j p l) k ≡ times (pc l) k
  times-update pc j p k e l = elim (ℕ_discrete j l) [
    | yes f ↦ rw (if_pos (ℕ_discrete j l) f) (e ∙ ap (λ i. times (pc i) k) f)
    | no ne ↦ rw (if_neg (ℕ_discrete j l) ne) refl
  ]

  -- A thread that moves with no addition to slot `k`.
  pub share-update :
      (pc : ℕ → Pc) (j : ℕ) (p : Pc) (x k : ℕ)
      → times p k ≡ times (pc j) k
      → sum cfg.num_threads (share (update pc j p) x k) ≡ sum cfg.num_threads (share pc x k)
  share-update pc j p x k e =
      sum_same cfg.num_threads (share pc x k) (share (update pc j p) x k)
        (λ l lt. ap (λ t. if dst cfg l == x then t * src cfg l else 0) (times-update pc j p k e l))

  share_other :
      (pc : ℕ → Pc) (j : ℕ) (p : Pc) (x k l : ℕ)
      → j ≢ l
      → share (update pc j p) x k l ≡ share pc x k l
  share_other pc j p x k l ne =
      ap (λ q. if dst cfg l == x then times q k * src cfg l else 0) (update_ne pc j l p ne)

  -- A thread with another destination.
  pub share_elsewhere :
      (pc : ℕ → Pc) (j : ℕ) (p : Pc) (x k : ℕ)
      → dst cfg j ≢ x
      → sum cfg.num_threads (share (update pc j p) x k) ≡ sum cfg.num_threads (share pc x k)
  share_elsewhere pc j p x k other =
      sum_same cfg.num_threads (share pc x k) (share (update pc j p) x k) (λ l lt. same l)
    where
      same : (l : ℕ) → share (update pc j p) x k l ≡ share pc x k l
      same l = elim (ℕ_discrete j l) [
        | yes f ↦
            let off : (dst cfg l == x) ≡ false = ==-ne _ _ (λ e. other (ap (dst cfg) f ∙ e)) in
            rw off refl
        | no ne ↦ share_other pc j p x k l ne
      ]

  -- One more addition.
  pub share_here :
      (pc : ℕ → Pc) (j r i value : ℕ)
      → j < cfg.num_threads
      → pc j ≡ adding r i value
      → sum cfg.num_threads (share (update pc j (at r (i + 1))) (dst cfg j) i)
        ≡ sum cfg.num_threads (share pc (dst cfg j) i) + src cfg j
  share_here pc j r i value lt e =
      let new = share (update pc j (at r (i + 1))) (dst cfg j) i in
      let old = share pc (dst cfg j) i in
      let change =
        sum_change cfg.num_threads j old new lt
          (λ l ne. share_other pc j (at r (i + 1)) (dst cfg j) i l ne) in
      let more : times (at r (i + 1)) i * src cfg j
          ≡ times (adding r i value) i * src cfg j + src cfg j =
        rw (lt→ltb i (i + 1) (omega arith), ltb_ge i i (omega arith)) (grind arith) in
      let one_more : new j ≡ old j + src cfg j =
        rw (==_refl (dst cfg j), update_self pc j {here = at r (i + 1)}, e) more in
      omega (arith, change, one_more)
