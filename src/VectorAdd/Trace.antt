-- ===== src/VectorAdd/Trace.antt =====
-- threads-bugs/main-common.c: what is printed with `-v`, and `vector_print`.
--
-- A line is its texts and numbers. A thread prints a line while it has `print_lock`, so that no
-- other line comes into it; here are the lines of one thread.
use sysprg.Prelude.{
  ℕ, zero, suc, ◌+◌, ◌*◌, ◌≡◌, refl, Bool, true, false, List, [], ◌∷◌, ◌++◌, length, if◌then◌else◌,
  arith,
}
use sysprg.Prelude.Text.{codes}
use sysprg.VectorAdd.{ThreadArg}

pub data Piece : Type 0 where
  text : List ℕ → Piece
  number : ℕ → Piece

-- `thread_id` times the room of a column
pub indent : ℕ → List Piece
indent zero = []
indent (suc n) = text (codes "              ") ∷ indent n

-- The lines that a call prints: none, or one.
unfoldable pub print_info : Bool → Bool → ℕ → ℕ → ℕ → List (List Piece)
unfolding indent
print_info verbose call_return thread_id v0 v1 =
    if verbose
    then (indent thread_id
        ++ text (if call_return then codes "<-add(" else codes "->add(")
          ∷ number v0
          ∷ text (codes ", ")
          ∷ number v1
          ∷ text (codes ")\n")
          ∷ [])
      ∷ []
    else []

-- `worker`: the lines of `n` rounds.
unfoldable pub worker_trace : Bool → ℕ → ThreadArg → ℕ → List (List Piece)
unfolding print_info
worker_trace verbose tid args zero = []
worker_trace verbose tid args (suc n) =
    let v0 = if args.vector_add_order then args.vector_1 else args.vector_0 in
    let v1 = if args.vector_add_order then args.vector_0 else args.vector_1 in
    print_info verbose false tid v0 v1
    ++ print_info verbose true tid v0 v1
    ++ worker_trace verbose tid args n

-- The loop of `vector_print` from index `i` on.
pub print_from : List ℕ → ℕ → List ℕ → List (List Piece)
print_from str i [] = []
print_from str i (x ∷ xs) =
    (text str ∷ text (codes "[") ∷ number i ∷ text (codes "] ") ∷ number x ∷ text (codes "\n") ∷ [])
    ∷ print_from str (i + 1) xs

unfoldable pub vector_print : List ℕ → List ℕ → List (List Piece)
unfolding print_from
vector_print values str = print_from str 0 values

-- A thread prints two lines for each round with `-v`, and nothing without it.
worker_trace-length :
    (verbose : Bool) (tid : ℕ) (args : ThreadArg) (n : ℕ)
    → length (worker_trace verbose tid args n) ≡ (if verbose then 2 * n else 0)
unfolding worker_trace print_info
worker_trace-length true tid args zero = refl
worker_trace-length false tid args zero = refl
worker_trace-length true tid args (suc n) = omega (arith, worker_trace-length true tid args n)
worker_trace-length false tid args (suc n) = worker_trace-length false tid args n
