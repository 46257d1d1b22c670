-- ===== src/BinSearch/Program.antt =====
-- callexec2.c: `main`.
--
-- The parent waits for the child, which runs python3 to write the file. `qsort` is a parameter, which
-- is given `cmpfunc`; the numbers of processes in what is printed are left out.
use sysprg.Prelude.{
  ℕ, zero, suc, Bool, Option, none, some, List, [], ◌∷◌, ◌++◌, leb, length, get_or, if◌then◌else◌,
}
use sysprg.Prelude.Int.{ℤ, pos, negsuc}
use sysprg.BinSearch.{readints, binsearch, cmpfunc, maxlines}

pub data Said : Type 0 where
  fork_failed : Said
  hello_child : Said
  should_not_print : Said
  hello_parent : Said
  error_parsing : Said
  error_reading : Said
  error_counting : Said
  found_at : ℤ → ℕ → Said
  not_found : Said

-- The lines printed, and what `main` returns; `none`: a search without end, or a value before the
-- array.
abbrev pub Outcome : Type 0
Outcome = Option (List Said × ℤ)

abbrev pub luckynum : ℤ
luckynum = pos 47

-- The child, where `execvp` returns only if it fails.
unfoldable pub child_main : Bool → List Said
child_main fails = hello_child ∷ (if fails then should_not_print ∷ [] else [])

-- The end of the parent, with `found`.
abbrev pub tell : List ℤ → Option ℤ → Outcome
tell intptr none = none
tell intptr (some (pos i)) = some (hello_parent ∷ found_at (get_or intptr i (pos 0)) i ∷ [], pos 0)
tell intptr (some (negsuc zero)) = some (hello_parent ∷ not_found ∷ [], pos 0)
tell intptr (some (negsuc (suc k))) = none

-- What `readints` says before it returns -1.
abbrev pub read_error : Option (List (Option ℤ)) → Said
read_error none = error_reading
read_error (some file) = error_parsing

abbrev pub counting_fails : Option (List (Option ℤ)) → Outcome
counting_fails file = some (hello_parent ∷ read_error file ∷ error_counting ∷ [], negsuc 0)

abbrev pub then_parent : List Said → Outcome → Outcome
then_parent before none = none
then_parent before (some (after, status)) = some (before ++ after, status)

module _ (qsort : (ℤ → ℤ → ℕ) → List ℤ → List ℤ) where
  -- The parent with the array after `readints`.
  abbrev pub search_in : Option (List (Option ℤ)) → Option (List ℤ) → Outcome
  search_in file none = counting_fails file
  search_in file (some nums) =
      let intptr = qsort cmpfunc nums in
      if leb (length nums) maxlines
      then tell intptr (binsearch luckynum (λ i. get_or intptr i (pos 0)) (length nums))
      else some (hello_parent ∷ error_counting ∷ [], negsuc 0)

  -- The parent, with the file as the child left it.
  unfoldable pub parent_main : Option (List (Option ℤ)) → Outcome
  parent_main file = search_in file (readints file)

  -- `main` where `fork` succeeds or not, and `execvp` fails or not.
  unfoldable pub main : Bool → Bool → Option (List (Option ℤ)) → Outcome
  unfolding parent_main child_main
  main forks fails file =
      if forks
      then then_parent (child_main fails) (parent_main file)
      else some (fork_failed ∷ [], pos 1)
