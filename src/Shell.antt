-- ===== src/Shell.antt =====
-- ostep-projects/process-shell/src/main.c: the line read in the interactive mode is split into `args`; and,
-- in Program, the shell from its start.
--
-- The block `args` has room for a number of pointers; a write past it, and a read before the first
-- byte of an empty token, are faults.
pub mod Arguments
pub mod Program
pub mod Ending
mod Tests
use sysprg.Prelude.{ℕ, zero, suc, ◌+◌, Bool, List, [], ◌∷◌, ◌++◌, ◌==◌, ltb, if◌then◌else◌}

abbrev pub max_num_args : ℕ
max_num_args = 10

-- The tokens that `strsep(&str, " ")` gives, call by call: also empty ones, and always one at least.
unfoldable pub strsep : List ℕ → List ℕ → List (List ℕ)
strsep token [] = token ∷ []
strsep token (c ∷ cs) =
    let next = strsep [] cs in
    let longer = strsep (token ++ c ∷ []) cs in if c == b' ' then token ∷ next else longer

-- `token[strlen(token)-1] = '\0'` where a newline stands, for a token that is not empty
pub strip_newline : ℕ → List ℕ → List ℕ
strip_newline c [] = if c == 10 then [] else c ∷ []
strip_newline c (d ∷ ds) = c ∷ strip_newline d ds

pub data Args : Type 0 where
  args : List (List ℕ) → Args
  fault : Args

abbrev pub add_arg : List ℕ → Args → Args
add_arg token (args more) = args (token ∷ more)
add_arg token fault = fault

-- `args[i] = NULL` on a block of `size` pointers
abbrev pub terminate : ℕ → ℕ → Args
terminate i size = if ltb i size then args [] else fault

-- The loop, with `i` arguments stored in a block of `size` pointers; each round makes the block
-- `i * sizeof(char*)` for the new `i`.
unfoldable pub args_loop : ℕ → ℕ → List (List ℕ) → Args
unfolding strip_newline
args_loop i size [] = terminate i size
args_loop i size (token ∷ tokens) =
    let rest = args_loop (i + 1) (i + 1) tokens in
    if ltb i max_num_args
    then (elim token [
      | [] ↦ fault
      | c ∷ cs ↦ if ltb i size then add_arg (strip_newline c cs) rest else fault
    ])
    else terminate i size

-- From `malloc(sizeof(char*))` on.
unfoldable pub interactive : List ℕ → Args
unfolding strsep args_loop
interactive line = args_loop 0 1 (strsep [] line)
