-- ===== src/Wcat/Tests.antt =====
-- wcat on two files, and on one that is missing.
use sysprg.Prelude.{
  ℕ, ◌≡◌, refl, Option, none, some, List, [], ◌∷◌, ◌++◌, ◌==◌, if◌then◌else◌, arith,
}
use sysprg.Stdio.Laws.{concat}
use sysprg.Wcat.{main, unable_to_open}
use sysprg.Wcat.Printed.{none_left, opened, main-concat}

-- A file whose name starts with `a` has the bytes 104, 105, 10; with `b` it is empty; there are no others.
abbrev disk : List ℕ → Option (List ℕ)
disk [] = none
disk (n ∷ more) =
    if n == b'a' then some (104 ∷ 105 ∷ 10 ∷ []) else if n == b'b' then some [] else none

main-concat_example :
    (main disk ((b'a' ∷ []) ∷ []) ≡ some (0, concat ((104 ∷ 105 ∷ 10 ∷ []) ∷ [])))
    × ((bad : List ℕ) (rest : List (List ℕ))
        → disk bad ≡ none
        → main disk (((b'a' ∷ []) ∷ []) ++ bad ∷ rest)
          ≡ some (1, concat ((104 ∷ 105 ∷ 10 ∷ []) ∷ []) ++ unable_to_open bad))
main-concat_example =
    main-concat disk ((b'a' ∷ []) ∷ []) ((104 ∷ 105 ∷ 10 ∷ []) ∷ [])
      (opened refl ((λ e. omega arith), ((λ e. omega arith), ((λ e. omega arith), tt))) none_left)

empty_file : main disk ((b'b' ∷ []) ∷ []) ≡ some (0, [])
unfolding main
empty_file = refl
