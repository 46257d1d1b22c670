-- ===== src/Wgrep.antt =====
-- ostep-projects/initial-utilities/wgrep/wgrep.c: prints the lines in which a term occurs.
-- `fopen` is a parameter: the bytes of each file, or `none` if it cannot be opened.
pub mod Selected
mod Tests
use sysprg.Prelude.{ℕ, Option, none, some, List, [], ◌∷◌, ◌++◌, length, leb, if◌then◌else◌}
use sysprg.Prelude.Text.{codes}
use sysprg.Stdio.{c_string, lines, strstr}

abbrev pub maxline : ℕ
maxline = 255

-- An exit with its status and what was printed, or behaviour that C does not define.
pub data Run : Type 0 where
  exit : ℕ → List ℕ → Run
  undefined : Run

-- The body of the `while` for one line: `sterm == '\0'` compares an address with 0 and is false.
pub print_line : List ℕ → List ℕ → List ℕ
unfolding c_string strstr
print_line sterm line = if strstr (c_string line) sterm then c_string line else []

pub print_lines : List ℕ → List (List ℕ) → List ℕ
unfolding print_line
print_lines sterm [] = []
print_lines sterm (line ∷ rest) = print_line sterm line ++ print_lines sterm rest

abbrev pub and_then : List ℕ → Run → Run
and_then out undefined = undefined
and_then out (exit status more) = exit status (out ++ more)

-- The loop over the files, with `getline` in each.
pub search_files : (List ℕ → Option (List ℕ)) → List ℕ → List (List ℕ) → Run
unfolding print_lines lines
search_files fopen sterm [] = exit 0 []
search_files fopen sterm (name ∷ rest) = elim (fopen name) [
  | none ↦ exit 1 (codes "wgrep: cannot open file" ++ 10 ∷ [])
  | some file ↦ and_then (print_lines sterm (lines file)) (search_files fopen sterm rest)
]

-- The same after the message that the term is too long: nothing was copied to `sterm`, so the first
-- line that is searched leads to undefined behaviour.
pub search_unset : (List ℕ → Option (List ℕ)) → List (List ℕ) → Run
search_unset fopen [] = exit 0 []
search_unset fopen (name ∷ rest) = elim (fopen name) [
  | none ↦ exit 1 (codes "wgrep: cannot open file" ++ 10 ∷ [])
  | some [] ↦ search_unset fopen rest
  | some (c ∷ cs) ↦ undefined
]

-- `main`, over `argv` from index 1 on. Without a file `strlen` reads a `line` that was never set.
unfoldable pub main : (List ℕ → Option (List ℕ)) → List (List ℕ) → Run
unfolding search_files search_unset
main fopen [] = exit 1 (codes "wgrep: searchterm [file ...]" ++ 10 ∷ [])
main fopen (term ∷ []) = undefined
main fopen (term ∷ name ∷ rest) =
    if leb maxline (length term)
    then search_unset fopen (name ∷ rest)
    else search_files fopen term (name ∷ rest)
