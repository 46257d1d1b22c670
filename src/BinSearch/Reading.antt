-- ===== src/BinSearch/Reading.antt =====
-- callexec2.c: what `readints` makes of a file.
use sysprg.Prelude.{
  ℕ, zero, suc, ◌-◌, ◌<◌, ◌≡◌, arith, refl, ap, ◌∙◌, Option, none, some, List, [], ◌∷◌, ◌++◌, map,
  length, take, replicate,
}
use sysprg.Prelude.Int.{ℤ, pos}
use sysprg.BinSearch.{readints, read_loop_ints, store_then, maxlines}

-- The last of the numbers, or `d` if there are none.
abbrev pub last_or : ℤ → List ℤ → ℤ
last_or d [] = d
last_or d (k ∷ ks) = last_or k ks

-- The first `n` numbers, filled up to `n` with the last.
abbrev pub padded : ℕ → ℤ → List ℤ → List ℤ
padded n d ks = take n ks ++ replicate (n - length ks) (last_or d ks)

pad_nil : (n : ℕ) (d : ℤ) → some (padded n d []) ≡ some (replicate n d)
pad_nil zero d = refl
pad_nil (suc n) d = let e : suc n - 0 ≡ suc n = omega arith in ap (λ m. some (replicate m d)) e

read_loop_ints_lem :
    (n : ℕ) (num : ℤ) (ks : List ℤ) → read_loop_ints n num (map some ks) ≡ some (padded n num ks)
unfolding read_loop_ints
read_loop_ints_lem zero num ks =
    let e : 0 ≡ 0 - length ks = omega arith in ap (λ m. some (replicate m (last_or num ks))) e
read_loop_ints_lem (suc n) num [] =
    let e : suc n ≡ suc n - 0 = omega arith in
    ap (store_then num) (read_loop_ints_lem n num [] ∙ pad_nil n num)
    ∙ ap (λ m. some (replicate m num)) e
read_loop_ints_lem (suc n) num (k ∷ ks) =
    let e : n - length ks ≡ suc n - suc (length ks) = omega arith in
    ap (store_then k) (read_loop_ints_lem n k ks)
    ∙ ap (λ m. some (k ∷ take n ks ++ replicate m (last_or k ks))) e

read_loop_ints-none :
    (n : ℕ) (num : ℤ) (ks : List ℤ) (file : List (Option ℤ))
    → length ks < n
    → read_loop_ints n num (map some ks ++ none ∷ file) ≡ none
unfolding read_loop_ints
read_loop_ints-none zero num ks file h = elim h [ ]
read_loop_ints-none (suc n) num [] file h = refl
read_loop_ints-none (suc n) num (k ∷ ks) file h =
    ap (store_then k) (read_loop_ints-none n k ks file (omega arith))

-- From a file of numbers `readints` stores the first 64 of them; if there are fewer, it goes on with
-- the last (with 0 for an empty file) until there are 64. If something that is not a number
-- comes in place of one of the 64, the result is -1; so it is if the file cannot be opened.
pub readints_lem :
    ((ks : List ℤ) → readints (some (map some ks)) ≡ some (padded maxlines (pos 0) ks))
    × ((ks : List ℤ) (file : List (Option ℤ))
        → length ks < maxlines
        → readints (some (map some ks ++ none ∷ file)) ≡ none)
    × (readints none ≡ none)
unfolding readints
readints_lem = (read_loop_ints_lem maxlines (pos 0), read_loop_ints-none maxlines (pos 0), refl)
