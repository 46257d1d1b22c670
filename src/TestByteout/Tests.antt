-- ===== src/TestByteout/Tests.antt =====
-- What test_byteout.c prints for 5 and `A`.
use sysprg.Prelude.{◌≡◌, refl, arith, ◌∷◌, []}
use sysprg.Prelude.Int.{pos}
use sysprg.TestByteout.{asciitobin, to_bin_loop, converted, test_main, write_args, writenumch}
use sysprg.TestByteout.Digits.{Reads, asciitobin-Reads}

tilde-Reads : Reads 126 (asciitobin 126)
tilde-Reads = asciitobin-Reads 126 (omega arith)

tilde : asciitobin 126 ≡ converted 1111110
unfolding asciitobin to_bin_loop
tilde = refl

-- `test_byteout 300 A`, with an `atoi` for this argument.
three_hundred : (test_main (λ rec. pos 300) ((b'3' ∷ b'0' ∷ b'0' ∷ []) ∷ (b'A' ∷ []) ∷ [])).1 ≡ 0
unfolding test_main write_args writenumch
three_hundred = refl

-- A byte that is not ASCII is refused.
refused : (test_main (λ rec. pos 300) ((b'3' ∷ []) ∷ (200 ∷ []) ∷ [])).1 ≡ 1
unfolding test_main write_args
refused = refl
