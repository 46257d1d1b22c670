-- ===== src/TestByteout/Digits.antt =====
-- test_byteout.c: the decimal digits of what `asciitobin` prints are the binary digits of the byte.
use sysprg.Prelude.{
  ℕ, zero, suc, ◌+◌, ◌*◌, ◌/◌, ◌%◌, ◌<◌, ◌≡◌, refl, Bool, true, false, ◌&&◌, ◌==◌, leb, arith,
  ℕ_discrete,
}
use mathlib.Core.Path.{subst}
use sysprg.TestByteout.{Conversion, converted, overflow, unfinished, to_bin_loop, asciitobin}

-- The number that the last `n` decimal digits stand for, if they are read as binary digits.
pub read_binary : ℕ → ℕ → ℕ
read_binary zero r = 0
read_binary (suc n) r = r % 10 + 2 * read_binary n (r / 10)

-- There are `n` decimal digits at most, each of them 0 or 1.
pub only_bits : ℕ → ℕ → Bool
only_bits zero r = r == 0
only_bits (suc n) r = let rest = only_bits n (r / 10) in leb (r % 10) 1 && rest

-- The conversion ends with a number that reads as `n`.
abbrev pub Reads : ℕ → Conversion → Type 0
Reads n c = (r : ℕ) × (c ≡ converted r) × (read_binary 8 r ≡ n) × (only_bits 8 r ≡ true)

abbrev reads : ℕ → Conversion → Bool
reads n (converted r) = read_binary 8 r == n && only_bits 8 r
reads n overflow = false
reads n unfinished = false

reads-Reads : (n : ℕ) (c : Conversion) → reads n c ≡ true → Reads n c
reads-Reads n (converted r) e = (r, refl, ground arith, ground arith)
reads-Reads n overflow e = cc
reads-Reads n unfinished e = cc

all_below : ℕ → Bool
all_below zero = true
all_below (suc n) = let rest = all_below n in reads n (asciitobin n) && rest

all_below_lem : (m n : ℕ) → all_below m ≡ true → n < m → reads n (asciitobin n) ≡ true
unfolding all_below
all_below_lem zero n e lt = absurd (omega arith)
all_below_lem (suc m) n e lt = elim (ℕ_discrete m n) [
  | yes f ↦
      subst (λ k. reads k (asciitobin k) ≡ true) f (both (reads m (asciitobin m)) (all_below m) e).0
  | no ne ↦ all_below_lem m n (both (reads m (asciitobin m)) (all_below m) e).1 (omega arith)
]
  where
    both : (a b : Bool) → (a && b) ≡ true → (a ≡ true) × (b ≡ true)
    both true b e = (refl, e)
    both false b e = cc

every_byte : all_below 256 ≡ true
unfolding all_below asciitobin to_bin_loop read_binary only_bits
every_byte = refl

-- For every byte `asciitobin` ends after 8 rounds at most without an overflow, and prints a number
-- of 8 decimal digits at most, each 0 or 1, which are the binary digits of the byte.
pub asciitobin-Reads : (n : ℕ) → n < 256 → Reads n (asciitobin n)
asciitobin-Reads n lt = reads-Reads n (asciitobin n) (all_below_lem 256 n every_byte lt)
