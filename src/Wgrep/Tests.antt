-- ===== src/Wgrep/Tests.antt =====
-- wgrep on one file of two lines.
use sysprg.Prelude.{ℕ, ◌≡◌, refl, Option, some, List, [], ◌∷◌, arith}
use sysprg.Stdio.{lines, c_string, strstr}
use sysprg.Wgrep.{main, exit}
use sysprg.Wgrep.Selected.{none_left, opened, Selects, Clean, main-Selects}

-- Every name is that of a file with the lines "ab" and "b".
abbrev disk : List ℕ → Option (List ℕ)
disk name = some (97 ∷ 98 ∷ 10 ∷ 98 ∷ 10 ∷ [])

disk-Clean : Clean ((97 ∷ 98 ∷ 10 ∷ []) ∷ (98 ∷ 10 ∷ []) ∷ [])
disk-Clean = (
  ((λ e. omega arith), ((λ e. omega arith), ((λ e. omega arith), tt))),
  (((λ e. omega arith), ((λ e. omega arith), tt)), tt),
)

main-Selects_example :
    (out : List ℕ) × (main disk ((97 ∷ []) ∷ (102 ∷ []) ∷ []) ≡ exit 0 out)
    × Selects (97 ∷ []) ((97 ∷ 98 ∷ 10 ∷ []) ∷ (98 ∷ 10 ∷ []) ∷ []) out
unfolding lines
main-Selects_example =
    main-Selects disk (97 ∷ []) (102 ∷ []) [] ((97 ∷ 98 ∷ 10 ∷ []) ∷ (98 ∷ 10 ∷ []) ∷ [])
      (omega arith) (opened refl disk-Clean none_left)

-- Only the first line has an "a".
first_line : main disk ((97 ∷ []) ∷ (102 ∷ []) ∷ []) ≡ exit 0 (97 ∷ 98 ∷ 10 ∷ [])
unfolding main lines c_string strstr
first_line = refl
