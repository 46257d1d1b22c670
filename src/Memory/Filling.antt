-- ===== src/Memory/Filling.antt =====
-- array.c fills its array and stays inside; null.c does not stay inside its block.
use sysprg.Prelude.{
  ℕ, zero, suc, ◌+◌, ◌<◌, ◌≡◌, refl, ap, ◌∙◌, none, some, List, [], ◌∷◌, set, length, lt→ltb,
  replicate, length-replicate, append-nil, arith, ◌++◌,
}
use mathlib.Core.Path.{subst}
use sysprg.Memory.{Run, returns, fault, write, and_then, clear_from, array_main, null_main}

set-append : (xs ys : List ℕ) (y v : ℕ) → set (xs ++ y ∷ ys) (length xs) v ≡ xs ++ v ∷ ys
set-append [] ys y v = refl
set-append (x ∷ xs) ys y v = ap (λ zs. x ∷ zs) (set-append xs ys y v)

longer : (xs ys : List ℕ) (y : ℕ) → length xs < length (xs ++ y ∷ ys)
longer [] ys y = omega arith
longer (x ∷ xs) ys y = let h = longer xs ys y in omega (arith, h)

zeros_shift : (n : ℕ) (ys : List ℕ) → replicate n 0 ++ 0 ∷ ys ≡ 0 ∷ replicate n 0 ++ ys
zeros_shift zero ys = refl
zeros_shift (suc n) ys = ap (λ zs. 0 ∷ zs) (zeros_shift n ys)

write_lem :
    (i y : ℕ) (ys : List ℕ)
    → write (replicate i 0 ++ y ∷ ys) i 0 ≡ returns (replicate (i + 1) 0 ++ ys)
write_lem i y ys =
    let e : length (replicate i 0) ≡ i = length-replicate i 0 in
    let inside : i < length (replicate i 0 ++ y ∷ ys) =
      omega (arith, e, longer (replicate i 0) ys y) in
    let stored : set (replicate i 0 ++ y ∷ ys) i 0 ≡ replicate i 0 ++ 0 ∷ ys =
      subst (λ k. set (replicate i 0 ++ y ∷ ys) k 0 ≡ replicate i 0 ++ 0 ∷ ys) e
        (set-append (replicate i 0) ys y 0) in
    let one_more : suc i ≡ i + 1 = omega arith in
    rw (lt→ltb i (length (replicate i 0 ++ y ∷ ys)) inside)
      (ap returns (stored ∙ zeros_shift i ys ∙ ap (λ k. replicate k 0 ++ ys) one_more))

clear_from_lem :
    (ys : List ℕ) (i : ℕ)
    → clear_from (length ys) i (replicate i 0 ++ ys) ≡ returns (replicate (i + length ys) 0)
unfolding clear_from
clear_from_lem [] i =
    let e : i ≡ i + 0 = omega arith in
    ap returns (append-nil (replicate i 0) ∙ ap (λ k. replicate k 0) e)
clear_from_lem (y ∷ ys) i =
    let e : i + 1 + length ys ≡ i + suc (length ys) = omega arith in
    ap (λ r. and_then r (clear_from (length ys) (i + 1))) (write_lem i y ys)
    ∙ clear_from_lem ys (i + 1)
    ∙ ap (λ k. returns (replicate k 0)) e

array_main_lem :
    (array : List ℕ) → length array ≡ 1000 → array_main array ≡ returns (replicate 1000 0)
unfolding array_main
array_main_lem array e =
    subst (λ n. clear_from n 0 array ≡ returns (replicate n 0)) e
      (clear_from_lem array 0 ∙ ap (λ k. returns (replicate k 0)) (omega arith))

-- `main` of array.c ends without a fault, whatever stands in its 1000 cells, and leaves a 0 in each.
-- `main` of null.c faults on the block of 100 numbers, and also if there is none.
pub memory_mains :
    ((array : List ℕ) → length array ≡ 1000 → array_main array ≡ returns (replicate 1000 0))
    × ((free : ℕ → List ℕ → Run (List ℕ)) (block : List ℕ)
        → length block ≡ 100
        → null_main free (some block) ≡ fault)
    × ((free : ℕ → List ℕ → Run (List ℕ)) → null_main free none ≡ fault)
unfolding null_main
memory_mains = (array_main_lem, λ free block e. rw (e) refl, λ free. refl)
