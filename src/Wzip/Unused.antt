-- ===== src/Wzip/Unused.antt =====
-- wzip.c: the functions that no other calls.
use sysprg.Prelude.{ℕ, ◌+◌, Bool, ◌&&◌, List, ◌==◌, ◌!=◌, leb, get_or, if◌then◌else◌}
use sysprg.Prelude.{◌≤◌, ◌<◌, ◌≡◌, arith}
use sysprg.Wzip.{Token}

-- `isAtEnd`; `lsz - 1` is -1 for an empty line, which then is at its end.
abbrev pub is_at_end : ℕ → ℕ → Bool
is_at_end lsz current = leb lsz (current + 2)

abbrev pub is_repeat : Token → ℕ → Bool
is_repeat t initchar = t.ch == initchar

abbrev pub is_end_of_line : ℕ → ℕ → Bool
is_end_of_line cur nxt = cur != nxt && nxt == 0

-- `line[current]` of a line with its NUL
abbrev pub peek : List ℕ → ℕ → ℕ
peek line current = get_or line current 0

abbrev pub peeknext : List ℕ → ℕ → ℕ → ℕ
peeknext line lsz current = if is_at_end lsz current then 0 else get_or line (current + 1) 0

-- `peeknext` looks only at bytes before the last: from the last but one on it gives 0.
peeknext_lem :
    (line : List ℕ) (lsz current : ℕ)
    → (lsz ≤ current + 2 → peeknext line lsz current ≡ 0)
      × (current + 2 < lsz → peeknext line lsz current ≡ peek line (current + 1))
peeknext_lem line lsz current = (λ h. ground arith, λ h. ground arith)
