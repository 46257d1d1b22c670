-- ===== src/Pauses/Tests.antt =====
-- The pauses "1,2:3" of two threads.
use sysprg.Prelude.{ℕ, ◌+◌, ◌*◌, ◌-◌, ◌≤◌, ◌≡◌, refl, List, [], ◌∷◌, length, arith}
use sysprg.Prelude.Int.{ℤ, pos}
use sysprg.Prelude.Text.{codes}
use sysprg.Buffer.{make_buffer}
use sysprg.Pauses.{strtok, parse_pause_string, rows, max_threads, do_print_buffer}
use sysprg.Pauses.Parsing.{Short}

-- A row of decimal digits.
abbrev decimal : ℕ → List ℕ → ℕ
decimal n [] = n
decimal n (c ∷ cs) = decimal (n * 10 + (c - 48)) cs

abbrev atoi : List ℕ → ℤ
atoi cs = pos (decimal 0 cs)

few : length (strtok b':' (codes "1,2:3")) ≤ max_threads
unfolding strtok
few = omega arith

short : Short atoi (strtok b':' (codes "1,2:3"))
unfolding strtok
short = (omega arith, (omega arith, tt))

one_row :
    parse_pause_string atoi (codes "12,0,5") 1
    ≡ rows ((pos 12 ∷ pos 0 ∷ pos 5 ∷ pos 0 ∷ pos 0 ∷ pos 0 ∷ pos 0 ∷ []) ∷ [])
unfolding parse_pause_string strtok
one_row = refl

-- An empty buffer of two places, both pointers at the first.
empty_buffer : do_print_buffer (λ n. codes "  0") (make_buffer 2) ≡ codes "  0 [*---  --- ] "
unfolding do_print_buffer make_buffer
empty_buffer = refl
