-- ===== src/Pauses/Parsing.antt =====
-- main-header.h: what `parse_pause_string` makes of a well-formed string.
use sysprg.Prelude.{
  ℕ, zero, suc, ◌+◌, ◌-◌, ◌≤◌, ◌≡◌, refl, sym, ap, ◌∙◌, some, List, [], ◌∷◌, ◌++◌, map,
  append_assoc, lt→ltb, arith, length, set, replicate, length-append, ==-ne, ==-eq, ◌≢◌,
}
use sysprg.Prelude.Int.{ℤ, pos}
use sysprg.Pauses.{
  strtok, fill_row, add_row, parse_loop, parse_pause_string, rows, exited, max_threads,
}

set-append : (xs zs : List ℤ) (z v : ℤ) → set (xs ++ z ∷ zs) (length xs) v ≡ xs ++ v ∷ zs
set-append [] zs z v = refl
set-append (x ∷ xs) zs z v = ap (λ ys. x ∷ ys) (set-append xs zs z v)

module _ (atoi : List ℕ → ℤ) where
  -- The amounts of one thread: those that are given, and 0 for the others up to seven.
  abbrev pub amounts : List ℕ → List ℤ
  amounts p = map atoi (strtok b',' p) ++ replicate (7 - length (strtok b',' p)) (pos 0)

  -- No piece has more than seven amounts.
  abbrev pub Short : List (List ℕ) → Type 0
  Short [] = Unit
  Short (p ∷ ps) = (length (strtok b',' p) ≤ 7) × Short ps

  fill_row_lem :
      (cs : List (List ℕ)) (xs : List ℤ) (k : ℕ)
      → length xs + k ≡ 7
      → length cs ≤ k
      → fill_row atoi (length xs) (xs ++ replicate k (pos 0)) cs
        ≡ some (xs ++ (map atoi cs ++ replicate (k - length cs) (pos 0)))
  unfolding fill_row
  fill_row_lem [] xs k e h = let d : k - 0 ≡ k = omega arith in rw d refl
  fill_row_lem (c ∷ cs) xs zero e h = absurd (omega arith)
  fill_row_lem (c ∷ cs) xs (suc k) e h =
      let n : length (xs ++ atoi c ∷ []) ≡ length xs + 1 = length-append xs (atoi c ∷ []) in
      let d : k - length cs ≡ suc k - suc (length cs) = omega arith in
      rw (lt→ltb (length xs) 7 (omega arith), set-append xs (replicate k (pos 0)) (pos 0) (atoi c))
        (ap (λ i. fill_row atoi i (xs ++ atoi c ∷ replicate k (pos 0)) cs) (sym n)
          ∙ ap (λ row. fill_row atoi (length (xs ++ atoi c ∷ [])) row cs)
              (sym (append_assoc xs (atoi c ∷ []) (replicate k (pos 0))))
          ∙ fill_row_lem cs (xs ++ atoi c ∷ []) k (omega arith) (omega arith)
          ∙ ap some
              (append_assoc xs (atoi c ∷ []) (map atoi cs ++ replicate (k - length cs) (pos 0)))
          ∙ ap (λ m. some (xs ++ (atoi c ∷ (map atoi cs ++ replicate m (pos 0))))) d)

  parse_loop_lem :
      (ps : List (List ℕ)) (index : ℕ)
      → index + length ps ≤ max_threads
      → Short ps
      → (parse_loop atoi (index + length ps) index ps ≡ rows (map amounts ps))
        × ((expected : ℕ)
            → expected ≢ index + length ps
            → parse_loop atoi expected index ps ≡ exited)
  unfolding parse_loop
  parse_loop_lem [] index h short = (
    rw (==-eq (index + 0) index (omega arith)) refl,
    λ expected ne. rw (==-ne expected index (λ e. ne (omega arith))) refl,
  )
  parse_loop_lem (p ∷ ps) index h (le, short) =
      let more = parse_loop_lem ps (index + 1) (omega arith) short in
      let filled = fill_row_lem (strtok b',' p) [] 7 refl le in
      let e : index + suc (length ps) ≡ index + 1 + length ps = omega arith in
      (
        ap (λ n. parse_loop atoi n index (p ∷ ps)) e
            ∙ rw (lt→ltb index 100 (omega arith), filled) (ap (add_row atoi (amounts p)) more.0),
        λ expected ne.
            rw (lt→ltb index 100 (omega arith), filled)
              (ap (add_row atoi (amounts p)) (more.1 expected (λ x. ne (omega arith)))),
      )

  -- If a string has at most 100 pieces between colons, each with at most seven amounts between commas,
  -- and as many pieces as expected, `parse_pause_string` writes for each piece its amounts and 0 for the
  -- rest of its seven places; if the number expected is another, it exits.
  pub parse_pause_string_lem :
      (str : List ℕ)
      → length (strtok b':' str) ≤ max_threads
      → Short (strtok b':' str)
      → (parse_pause_string atoi str (length (strtok b':' str))
          ≡ rows (map amounts (strtok b':' str)))
        × ((expected : ℕ)
            → expected ≢ length (strtok b':' str)
            → parse_pause_string atoi str expected ≡ exited)
  unfolding parse_pause_string
  parse_pause_string_lem str h short =
      let r = parse_loop_lem (strtok b':' str) 0 (omega arith) short in
      let e : 0 + length (strtok b':' str) ≡ length (strtok b':' str) = omega arith in
      (
        ap (λ n. parse_loop atoi n 0 (strtok b':' str)) (sym e) ∙ r.0,
        λ expected ne. r.1 expected (λ x. ne (x ∙ e)),
      )
