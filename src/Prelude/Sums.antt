-- ===== src/Prelude/Sums.antt =====
-- Sums over an index, and what a change at one index does to them.
use Prim.Native.Nat.{ℕ, zero, suc, ◌+◌, ◌*◌, ◌≤◌, ◌<◌}
use mathlib.Core.Path.{◌≡◌, refl, sym, ap, ◌∙◌}
use mathlib.Core.Logic.{◌≢◌}
use native.Mathlib.Decide.{ℕ_discrete}
use native.Mathlib.Omega.{arith}
use sysprg.Prelude.Family.{update, update_self, update_ne}

-- The sum of the first `n`.
abbrev pub sum : ℕ → (ℕ → ℕ) → ℕ
sum zero f = 0
sum (suc n) f = sum n f + f n

pub sum_same : (n : ℕ) (f g : ℕ → ℕ) → ((j : ℕ) → j < n → g j ≡ f j) → sum n g ≡ sum n f
sum_same zero f g h = refl
sum_same (suc n) f g h =
    omega (arith, sum_same n f g (λ j lt. h j (omega arith)), h n (omega arith))

-- Two families that differ at most at `i`.
pub sum_change :
    (n i : ℕ) (f g : ℕ → ℕ) → i < n → ((j : ℕ) → i ≢ j → g j ≡ f j) → sum n g + f i ≡ sum n f + g i
sum_change zero i f g h same = absurd (omega arith)
sum_change (suc n) i f g h same = elim (ℕ_discrete i n) [
  | yes e ↦
      let a : f i ≡ f n = ap f e in
      let b : g i ≡ g n = ap g e in
      omega (arith, sum_same n f g (λ j lt. same j (omega arith)), a, b)
  | no ne ↦ omega (arith, sum_change n i f g (omega arith) same, same n ne)
]

pub sum-update : (n i v : ℕ) (f : ℕ → ℕ) → i < n → sum n (update f i v) + f i ≡ sum n f + v
sum-update n i v f h = omega (
  arith,
  sum_change n i f (update f i v) h (λ j ne. update_ne f i j v ne),
  update_self f i {here = v},
)

-- A bound for each member that consists of a common part and one of its own.
pub sum_below : (n t : ℕ) (f g : ℕ → ℕ) → ((i : ℕ) → f i < t + g i) → sum n f + n ≤ n * t + sum n g
sum_below zero t f g h = omega arith
sum_below (suc n) t f g h = grind (arith, sum_below n t f g h, h n)

pub sum_member : (n i : ℕ) (f : ℕ → ℕ) → i < n → f i ≤ sum n f
sum_member zero i f h = absurd (omega arith)
sum_member (suc n) i f h = elim (ℕ_discrete i n) [
  | yes e ↦ let a : f i ≡ f n = ap f e in omega (arith, a)
  | no ne ↦ omega (arith, sum_member n i f (omega arith))
]

-- Two members that are not the same.
pub sum_two : (n i j : ℕ) (f : ℕ → ℕ) → i < n → j < n → i ≢ j → f i + f j ≤ sum n f
sum_two zero i j f h k ne = absurd (omega arith)
sum_two (suc n) i j f h k ne = elim (ℕ_discrete i n) [
  | yes e ↦
      let a : f i ≡ f n = ap f e in
      let less : j < n = omega (arith, ne) in omega (arith, a, sum_member n j f less)
  | no ni ↦ elim (ℕ_discrete j n) [
    | yes e ↦ let a : f j ≡ f n = ap f e in omega (arith, a, sum_member n i f (omega arith))
    | no nj ↦ omega (arith, sum_two n i j f (omega arith) (omega arith) ne)
  ]
]

-- A sum that is not 0 has a member that is not.
pub sum_some : (n : ℕ) (f : ℕ → ℕ) → 0 < sum n f → (i : ℕ) × (i < n) × (0 < f i)
sum_some zero f h = absurd (omega arith)
sum_some (suc n) f h = elim (ℕ_discrete (f n) 0) [
  | yes e ↦ let (i, lt, p) = sum_some n f (omega arith) in (i, omega arith, p)
  | no ne ↦ (n, omega arith, omega arith)
]

pub sum_none : (n : ℕ) (f : ℕ → ℕ) → ((i : ℕ) → i < n → f i ≡ 0) → sum n f ≡ 0
sum_none zero f h = refl
sum_none (suc n) f h = omega (arith, sum_none n f (λ i lt. h i (omega arith)), h n (omega arith))

pub sum_all : (n : ℕ) (f : ℕ → ℕ) → ((i : ℕ) → i < n → f i ≡ 1) → sum n f ≡ n
sum_all zero f h = refl
sum_all (suc n) f h = omega (arith, sum_all n f (λ i lt. h i (omega arith)), h n (omega arith))

sum_most : (n : ℕ) (f : ℕ → ℕ) → ((i : ℕ) → i < n → f i ≤ 1) → sum n f ≤ n
sum_most zero f h = omega arith
sum_most (suc n) f h = omega (arith, sum_most n f (λ i lt. h i (omega arith)), h n (omega arith))

-- Members of at most 1, one of them 0.
pub sum_short : (n k : ℕ) (f : ℕ → ℕ) → k < n → ((i : ℕ) → i < n → f i ≤ 1) → f k ≡ 0 → sum n f < n
sum_short zero k f lt h z = absurd (omega arith)
sum_short (suc n) k f lt h z = elim (ℕ_discrete k n) [
  | yes e ↦
      let a : f k ≡ f n = ap f e in omega (arith, a, z, sum_most n f (λ i lt. h i (omega arith)))
  | no ne ↦
      omega (
        arith,
        sum_short n k f (omega (arith, ne)) (λ i lt. h i (omega arith)) z,
        h n (omega arith),
      )
]

-- A weight of what each index has, when index `i` gets `here`.
pub sum_at {ℓ} :
    {A : Type ℓ} (f : ℕ → A → ℕ) (n i : ℕ) (each : ℕ → A) (here : A)
    → i < n
    → sum n (λ j. f j (update each i here j)) + f i (each i) ≡ sum n (λ j. f j (each j)) + f i here
sum_at f n i each here lt =
    sum_change n i (λ j. f j (each j)) (λ j. f j (update each i here j)) lt
      (λ j ne. ap (f j) (update_ne each i j here ne))
    ∙ ap (λ q. sum n (λ j. f j (each j)) + f i q) (update_self each i)

pub sum_moved {ℓ} :
    {A : Type ℓ} (f : A → ℕ) (n i : ℕ) (each : ℕ → A) (here : A)
    → i < n
    → sum n (λ j. f (update each i here j)) + f (each i) ≡ sum n (λ j. f (each j)) + f here
sum_moved f = sum_at (λ j. f)

-- The same for the indices from `base` on.
pub sum_past {ℓ} :
    {A : Type ℓ} (f : A → ℕ) (n base k : ℕ) (each : ℕ → A) (here : A)
    → k < n
    → sum n (λ j. f (update each (base + k) here (base + j))) + f (each (base + k))
      ≡ sum n (λ j. f (each (base + j))) + f here
sum_past f n base k each here lt =
    sum_change n k (λ j. f (each (base + j))) (λ j. f (update each (base + k) here (base + j))) lt
      (λ j ne. ap f (update_ne each (base + k) (base + j) here (omega (arith, ne))))
    ∙ ap (λ q. sum n (λ j. f (each (base + j))) + f q) (update_self each (base + k))

-- Indices other than `i`.
pub sum_off {ℓ} :
    {A : Type ℓ} (f : ℕ → A → ℕ) (n i : ℕ) (index : ℕ → ℕ) (each : ℕ → A) (here : A)
    → ((j : ℕ) → j < n → i ≢ index j)
    → sum n (λ j. f j (update each i here (index j))) ≡ sum n (λ j. f j (each (index j)))
sum_off f n i index each here ne =
    sum_same n (λ j. f j (each (index j))) (λ j. f j (update each i here (index j)))
      (λ j lt. ap (f j) (update_ne each i (index j) here (ne j lt)))

pub sum_split : (m n : ℕ) (f : ℕ → ℕ) → sum (m + n) f ≡ sum m f + sum n (λ i. f (m + i))
sum_split m zero f = omega (arith, ap (λ k. sum k f) (plus_zero m))
  where
    plus_zero : (m : ℕ) → m + 0 ≡ m
    plus_zero m = omega arith
sum_split m (suc n) f = omega (arith, ap (λ k. sum k f) (plus_suc m n), sum_split m n f)
  where
    plus_suc : (m n : ℕ) → m + suc n ≡ suc (m + n)
    plus_suc m n = omega arith

-- Blocks of `n`, one after another.
pub sum_blocks : (m n : ℕ) (f : ℕ → ℕ) → sum m (λ j. sum n (λ i. f (j * n + i))) ≡ sum (m * n) f
sum_blocks zero n f = ap (λ k. sum k f) (sym (zero_mul n))
  where
    zero_mul : (n : ℕ) → 0 * n ≡ 0
    zero_mul n = omega arith
sum_blocks (suc m) n f =
    omega (arith, sum_blocks m n f, sum_split (m * n) n f, ap (λ k. sum k f) (suc_mul m n))
  where
    suc_mul : (m n : ℕ) → suc m * n ≡ m * n + n
    suc_mul m n = grind arith

-- One member is 1 and the others are 0.
pub sum_one : (n k : ℕ) (f : ℕ → ℕ) → k < n → f k ≡ 1 → ((j : ℕ) → k ≢ j → f j ≡ 0) → sum n f ≡ 1
sum_one zero k f lt here other = absurd (omega arith)
sum_one (suc n) k f lt here other = elim (ℕ_discrete k n) [
  | yes e ↦
      let a : f k ≡ f n = ap f e in
      omega (arith, a, here, sum_none n f (λ j l. other j (omega (arith, e))))
  | no ne ↦ omega (arith, sum_one n k f (omega (arith, ne)) here other, other n ne)
]

pub sum_plus_one : (n : ℕ) (f : ℕ → ℕ) → sum n (λ i. f i + 1) ≡ sum n f + n
sum_plus_one zero f = refl
sum_plus_one (suc n) f = omega (arith, sum_plus_one n f)

-- Members of at most `m`.
pub sum_bounded : (n m : ℕ) (f : ℕ → ℕ) → ((i : ℕ) → i < n → f i ≤ m) → sum n f ≤ n * m
sum_bounded zero m f h = omega arith
sum_bounded (suc n) m f h =
    grind (arith, sum_bounded n m f (λ i lt. h i (omega arith)), h n (omega arith))
