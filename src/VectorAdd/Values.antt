-- ===== src/VectorAdd/Values.antt =====
-- The loop of `vector_add` over the values.
use sysprg.Prelude.{
  ◌⊎◌, inl, inr, ℕ, zero, suc, ◌+◌, ◌%◌, ◌^◌, ◌≤◌, ◌<◌, ◌≡◌, ◌≢◌, refl, sym, ◌∙◌, ap, List, [], ◌∷◌,
  update, update_self, update_ne, arith, ℕ_discrete, length, get_or, set, length-set,
}
use mathlib.Core.Path.{subst}
use sysprg.VectorAdd.{Store, add_from, add_values, vector_size}

-- The sum of two slots before the loop runs.
abbrev sum_at : ℕ → ℕ → Store → ℕ → ℕ
sum_at dst src v k = (get_or (v dst) k 0 + get_or (v src) k 0) % 2 ^ 32

pub get_or-set_self : (xs : List ℕ) (i x : ℕ) → i < length xs → get_or (set xs i x) i 0 ≡ x
get_or-set_self [] i x h = elim h [ ]
get_or-set_self (y ∷ xs) zero x h = refl
get_or-set_self (y ∷ xs) (suc i) x h = get_or-set_self xs i x (omega arith)

pub get_or-set_ne : (xs : List ℕ) (i j x : ℕ) → i ≢ j → get_or (set xs i x) j 0 ≡ get_or xs j 0
get_or-set_ne [] i j x h = refl
get_or-set_ne (y ∷ xs) zero zero x h = absurd (h refl)
get_or-set_ne (y ∷ xs) zero (suc j) x h = refl
get_or-set_ne (y ∷ xs) (suc i) zero x h = refl
get_or-set_ne (y ∷ xs) (suc i) (suc j) x h = get_or-set_ne xs i j x (λ e. h (ap suc e))

-- The store after the round for slot `i`.
abbrev round : ℕ → ℕ → ℕ → Store → Store
round dst src i v = update v dst (set (v dst) i (sum_at dst src v i))

round_at : (dst src i : ℕ) (v : Store) → round dst src i v dst ≡ set (v dst) i (sum_at dst src v i)
round_at dst src i v = update_self v dst

-- A write of slot `i` changes no other slot, of any vector.
pub stored_other :
    (v : Store) (dst i z x k : ℕ)
    → (x ≢ dst) ⊎ (i ≢ k)
    → get_or (update v dst (set (v dst) i z) x) k 0 ≡ get_or (v x) k 0
stored_other v dst i z x k h = elim (ℕ_discrete dst x) [
  | yes e ↦
      ap (λ y. get_or (update v dst (set (v dst) i z) y) k 0) (sym e)
      ∙ ap (λ xs. get_or xs k 0) (update_self v dst)
      ∙ get_or-set_ne (v dst) i k z (slot e h)
      ∙ ap (λ y. get_or (v y) k 0) e
  | no ne ↦ ap (λ xs. get_or xs k 0) (update_ne v dst x _ ne)
]
  where
    slot : dst ≡ x → (x ≢ dst) ⊎ (i ≢ k) → i ≢ k
    slot e (inl ne) = absurd (ne (sym e))
    slot e (inr ne) = ne

round_other :
    (dst src i : ℕ) (v : Store) (x k : ℕ)
    → (x ≢ dst) ⊎ (i ≢ k)
    → get_or (round dst src i v x) k 0 ≡ get_or (v x) k 0
round_other dst src i v x k h = stored_other v dst i (sum_at dst src v i) x k h

-- After `n` rounds from slot `i` on, those slots of `dst` hold the sums of what was there before the
-- loop, and every other slot of every vector is as before.
abbrev Summed : ℕ → ℕ → ℕ → ℕ → Store → Store → Type 0
Summed dst src i n v w =
    ((k : ℕ) → i ≤ k → k < i + n → get_or (w dst) k 0 ≡ sum_at dst src v k)
    × ((x k : ℕ) → (x ≢ dst) ⊎ ((k < i) ⊎ (i + n ≤ k)) → get_or (w x) k 0 ≡ get_or (v x) k 0)

module _ (dst src i n : ℕ) (v w : Store) (h : i + suc n ≤ length (v dst))
    (rec : Summed dst src (i + 1) n (round dst src i v) w) where
  sum_later : (k : ℕ) → i < k → sum_at dst src (round dst src i v) k ≡ sum_at dst src v k
  sum_later k lt = rw (
    round_other dst src i v dst k (inr (omega arith)),
    round_other dst src i v src k (inr (omega arith)),
  )

  sum_here : get_or (w dst) i 0 ≡ sum_at dst src v i
  sum_here =
      rec.1 dst i (inr (inl (omega arith)))
      ∙ ap (λ xs. get_or xs i 0) (round_at dst src i v)
      ∙ get_or-set_self (v dst) i (sum_at dst src v i) (omega arith)

  Summed-round : Summed dst src i (suc n) v w
  Summed-round = (inside, outside)
    where
      inside : (k : ℕ) → i ≤ k → k < i + suc n → get_or (w dst) k 0 ≡ sum_at dst src v k
      inside k a b = elim (ℕ_discrete i k) [
        | yes e ↦ subst (λ j. get_or (w dst) j 0 ≡ sum_at dst src v j) e sum_here
        | no ne ↦ rec.0 k (omega arith) (omega arith) ∙ sum_later k (omega arith)
      ]

      narrow :
          (x k : ℕ)
          → (x ≢ dst) ⊎ ((k < i) ⊎ (i + suc n ≤ k))
          → (x ≢ dst) ⊎ ((k < i + 1) ⊎ (i + 1 + n ≤ k))
      narrow x k (inl ne) = inl ne
      narrow x k (inr (inl a)) = inr (inl (omega arith))
      narrow x k (inr (inr b)) = inr (inr (omega arith))

      other : (x k : ℕ) → (x ≢ dst) ⊎ ((k < i) ⊎ (i + suc n ≤ k)) → (x ≢ dst) ⊎ (i ≢ k)
      other x k (inl ne) = inl ne
      other x k (inr (inl a)) = inr (omega arith)
      other x k (inr (inr b)) = inr (omega arith)

      outside :
          (x k : ℕ) → (x ≢ dst) ⊎ ((k < i) ⊎ (i + suc n ≤ k)) → get_or (w x) k 0 ≡ get_or (v x) k 0
      outside x k c = rec.1 x k (narrow x k c) ∙ round_other dst src i v x k (other x k c)

add_from-Summed :
    (dst src i n : ℕ) (v : Store)
    → i + n ≤ length (v dst)
    → Summed dst src i n v (add_from dst src i n v)
unfolding add_from
add_from-Summed dst src i zero v h = (λ k a b. absurd (omega arith), λ x k c. refl)
add_from-Summed dst src i (suc n) v h = Summed-round dst src i n v _ h (
    add_from-Summed dst src (i + 1) n (round dst src i v)
      (omega (arith, ap length (round_at dst src i v), length-set (v dst) i (sum_at dst src v i))))

-- If the destination has its 100 values, then after the loop of `vector_add` each of them is the sum
-- (modulo 2 ^ 32) of what the two vectors held there before the loop, also where source and
-- destination are one vector, and all other vectors are as before.
pub add_values_lem :
    (dst src : ℕ) (v : Store)
    → length (v dst) ≡ vector_size
    → ((k : ℕ)
        → k < vector_size
        → get_or (add_values dst src v dst) k 0
          ≡ (get_or (v dst) k 0 + get_or (v src) k 0) % 2 ^ 32)
      × ((x k : ℕ) → x ≢ dst → get_or (add_values dst src v x) k 0 ≡ get_or (v x) k 0)
unfolding add_values
add_values_lem dst src v e =
    let (inside, outside) = add_from-Summed dst src 0 100 v (omega arith) in
    (λ k lt. inside k (omega arith) lt, λ x k ne. outside x k (inl ne))
