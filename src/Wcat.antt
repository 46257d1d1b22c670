-- ===== src/Wcat.antt =====
-- ostep-projects/initial-utilities/wcat/wcat.c: prints files one after the other.
-- `fopen` is a parameter: the bytes of each file, or `none` if it cannot be opened.
pub mod Printed
mod Tests
use sysprg.Prelude.{ℕ, zero, suc, ◌+◌, ◌-◌, Option, none, some, List, [], ◌∷◌, ◌++◌, length}
use sysprg.Prelude.Text.{codes}
use sysprg.Stdio.{c_string, next_bytes}

abbrev pub maxline : ℕ
maxline = 255

-- The loop `while (fgets(lbuf, MAXLINE, fp)) printf("%s", lbuf);` for at most `fuel` rounds: what it
-- prints, `none` if the rounds do not do. `fgets` reads at most 254 bytes, up to a newline, and
-- gives NULL at the end of the file.
pub print_loop : ℕ → List ℕ → Option (List ℕ)
unfolding next_bytes c_string
print_loop zero file = none
print_loop (suc fuel) [] = some []
print_loop (suc fuel) (c ∷ cs) =
    let (lbuf, left) = next_bytes (maxline - 1) (c ∷ cs) in
    elim (print_loop fuel left) [ none ↦ none | some out ↦ some (c_string lbuf ++ out) ]

-- The loop for a file; each round reads a byte at least.
unfoldable pub print_file : List ℕ → Option (List ℕ)
unfolding print_loop
print_file file = print_loop (suc (length file)) file

abbrev pub unable_to_open : List ℕ → List ℕ
unable_to_open name = codes "Error: unable to open file " ++ name ++ 10 ∷ []

-- `main`, over `argv` from index 1 on: the exit status and what is printed.
pub main : (List ℕ → Option (List ℕ)) → List (List ℕ) → Option (ℕ × List ℕ)
unfolding print_file
main fopen [] = some (0, [])
main fopen (name ∷ rest) = elim (fopen name) [
  | none ↦ some (1, unable_to_open name)
  | some file ↦ elim (print_file file) [
    | none ↦ none
    | some out ↦ elim (main fopen rest) [
      | none ↦ none
      | some (status, more) ↦ some (status, out ++ more)
    ]
  ]
]
