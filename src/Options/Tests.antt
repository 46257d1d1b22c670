-- ===== src/Options/Tests.antt =====
-- main-common.c: `-l 5 -v -l 7`, with an `atoi` that gives the length.
use sysprg.Prelude.{ℕ, ◌≡◌, refl, true, List, [], ◌∷◌, length}
use sysprg.Prelude.Int.{ℤ, pos}
use sysprg.Options.{starts, defaults, set_option, read_options, main_options}

abbrev long : List ℕ → ℤ
long text = pos (length text)

abbrev given : List (ℕ × List ℕ)
given = (b'l', b'5' ∷ []) ∷ (b'v', []) ∷ (b'l', b'1' ∷ b'2' ∷ []) ∷ []

last_counts : main_options long given ≡ starts (record defaults { loops = pos 2; do_trace = true })
unfolding main_options read_options set_option
last_counts = refl
