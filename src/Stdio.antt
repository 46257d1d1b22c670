-- ===== src/Stdio.antt =====
-- What wcat.c and wgrep.c use of the C library: `fgets`, `getline`, texts that end at a NUL, `strstr`.
-- An open file is the list of the bytes not yet read.
pub mod Laws
use sysprg.Prelude.{
  ℕ, zero, suc, ◌+◌, Bool, true, false, ◌&&◌, ◌||◌, Option, none, some, List, [], ◌∷◌, ◌==◌,
  if◌then◌else◌,
}

-- The bytes up to the first NUL.
unfoldable pub c_string : List ℕ → List ℕ
c_string [] = []
c_string (c ∷ cs) = let rest = c_string cs in if c == 0 then [] else c ∷ rest

-- The next `n` bytes at most, none after a newline, and what is left.
unfoldable pub next_bytes : ℕ → List ℕ → List ℕ × List ℕ
next_bytes zero file = ([], file)
next_bytes (suc n) [] = ([], [])
next_bytes (suc n) (c ∷ cs) =
    let (read, left) = next_bytes n cs in if c == 10 then (c ∷ [], cs) else (c ∷ read, left)

-- The lines of a file, each with its newline: what `getline` gives, call by call.
unfoldable pub lines : List ℕ → List (List ℕ)
lines [] = []
lines (c ∷ cs) =
    let rest = lines cs in
    if c == 10
    then (c ∷ []) ∷ rest
    else elim rest [ [] ↦ (c ∷ []) ∷ [] | line ∷ more ↦ (c ∷ line) ∷ more ]

unfoldable pub is_prefix : List ℕ → List ℕ → Bool
is_prefix [] hay = true
is_prefix (n ∷ needle) [] = false
is_prefix (n ∷ needle) (h ∷ hay) = let rest = is_prefix needle hay in n == h && rest

-- `strstr(hay, needle) != NULL`, on texts without a NUL
unfoldable pub strstr : List ℕ → List ℕ → Bool
unfolding is_prefix
strstr [] needle = is_prefix needle []
strstr (h ∷ hay) needle = is_prefix needle (h ∷ hay) || strstr hay needle
