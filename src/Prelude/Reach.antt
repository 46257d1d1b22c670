-- ===== src/Prelude/Reach.antt =====
-- The states that a step relation leads to, in any number of steps.
use Prim.Native.Nat.{ℕ, suc, ◌+◌, ◌≤◌, ◌<◌}
use native.Mathlib.Omega.{arith}

module _ {S : Type 0} (Step : S → S → Type 0) where
  pub data Reach (s : S) : S → Type 0 where
    here : Reach s s
    next : {t u : S} → Reach s t → Step t u → Reach s u

  -- What every step keeps holds in every state reached.
  pub Reach-keeps :
      (P : S → Type 0) → ((t u : S) → Step t u → P t → P u) → {s t : S} → P s → Reach s t → P t
  Reach-keeps P keeps p here = p
  Reach-keeps P keeps p (next {t} {u} r st) = keeps t u st (Reach-keeps P keeps p r)

  unfoldable pub steps : {s t : S} → Reach s t → ℕ
  steps here = 0
  steps (next r st) = suc (steps r)

  -- Where every step from a state with `P` makes the measure smaller, no run is longer than the
  -- measure of its start.
  pub steps_bounded :
      (P : S → Type 0) (measure : S → ℕ)
      → ((t u : S) → Step t u → P t → P u)
      → ((t u : S) → Step t u → P t → measure u < measure t)
      → {s t : S} → P s
      → (r : Reach s t) → steps r + measure t ≤ measure s
  unfolding steps
  steps_bounded P measure keeps falls p here = omega arith
  steps_bounded P measure keeps falls p (next {t} {u} r st) =
      let q = Reach-keeps P keeps p r in
      omega (arith, steps_bounded P measure keeps falls p r, falls t u st q)

  pub Reach-append : {s t u : S} → Reach s t → Reach t u → Reach s u
  Reach-append r here = r
  Reach-append r (next q st) = next (Reach-append r q) st
