-- ===== src/Shell/Arguments.antt =====
-- The block `args` of the shell is always one pointer too small.
use sysprg.Prelude.{
  ℕ, ◌≡◌, refl, ap, ◌∙◌, inl, inr, List, [], ◌∷◌, ◌++◌, ◌==◌, ltb, ltb_ge, arith, Bool-cases,
}
use sysprg.Shell.{strsep, strip_newline, args_loop, interactive, fault, add_arg}

-- Once all pointers of the block are used, the next write is past it.
full : (i : ℕ) (tokens : List (List ℕ)) → args_loop i i tokens ≡ fault
unfolding args_loop
full i [] = rw (ltb_ge i i (omega arith)) refl
full i ([] ∷ tokens) = elim (Bool-cases (ltb i 10)) [
  | inl e ↦ rw e refl
  | inr e ↦ rw (e, ltb_ge i i (omega arith)) refl
]
full i ((c ∷ cs) ∷ tokens) = elim (Bool-cases (ltb i 10)) [
  | inl e ↦ rw (e, ltb_ge i i (omega arith)) refl
  | inr e ↦ rw (e, ltb_ge i i (omega arith)) refl
]

first_faults : (token : List ℕ) (tokens : List (List ℕ)) → args_loop 0 1 (token ∷ tokens) ≡ fault
unfolding args_loop
first_faults [] tokens = refl
first_faults (c ∷ cs) tokens = ap (add_arg (strip_newline c cs)) (full 1 tokens)

some_token :
    (token line : List ℕ)
    → (first : List ℕ) × (rest : List (List ℕ)) × (strsep token line ≡ first ∷ rest)
unfolding strsep
some_token token [] = (token, [], refl)
some_token token (c ∷ cs) = elim (Bool-cases (c == 32)) [
  | inl e ↦ (token, strsep [] cs, rw e refl)
  | inr e ↦ let (first, rest, s) = some_token (token ++ c ∷ []) cs in (first, rest, rw e s)
]

-- For every line the interactive mode writes past the block `args`, or reads before an empty token.
pub interactive_faults : (line : List ℕ) → interactive line ≡ fault
unfolding interactive
interactive_faults line =
    let (first, rest, s) = some_token [] line in ap (args_loop 0 1) s ∙ first_faults first rest
