-- ===== src/Prelude/Family.antt =====
-- What each thread has, as a function of its number.
use Prim.Native.Nat.{ℕ}
use mathlib.Core.Path.{◌≡◌, sym, subst}
use mathlib.Core.Logic.{ite, ◌≢◌}
use native.Mathlib.Decide.{ℕ_discrete}
use native.Mathlib.Omega.{arith}

-- The same for all but thread `i`.
abbrev pub update {ℓ} : {A : Type ℓ} → (ℕ → A) → ℕ → A → ℕ → A
update each i here j = ite (ℕ_discrete i j) here (each j)

pub update_self {ℓ} : {A : Type ℓ} (each : ℕ → A) (i : ℕ) {here : A} → update each i here i ≡ here
update_self each i = ground arith

pub update_ne {ℓ} :
    {A : Type ℓ} (each : ℕ → A) (i j : ℕ) (here : A) → i ≢ j → update each i here j ≡ each j
update_ne each i j here h = ground arith

-- A property of what thread `j` has after a change at `i`.
pub update_case {ℓ κ} :
    {A : Type ℓ} (P : A → Type κ) (each : ℕ → A) (i j : ℕ) (here : A)
    → (i ≡ j → P here)
    → (i ≢ j → P (each j))
    → P (update each i here j)
update_case P each i j here at other = elim (ℕ_discrete i j) [
  | yes e ↦ subst (λ k. P (update each i here k)) e (subst P (sym (update_self each i)) (at e))
  | no ne ↦ subst P (sym (update_ne each i j here ne)) (other ne)
]
