-- ===== src/TestByteout.antt =====
-- ostep-projects/initial-utilities/wzip/tests/utest/test_byteout.c: the functions that write a count and a
-- byte, tried by hand.
--
-- What is given to `printf` and `fwrite` is a list of texts, numbers and bytes. `int` has 32 bits; a
-- sum or product that is greater is an overflow. `char` has a sign. `atoi` is a parameter.
pub mod Digits
mod Tests
use sysprg.Prelude.{
  ℕ, zero, suc, ◌+◌, ◌*◌, ◌-◌, length, ◌/◌, ◌%◌, ◌^◌, ◌&&◌, Bool, List, [], ◌∷◌, ◌++◌, ◌==◌, ltb,
  if◌then◌else◌,
}
use sysprg.Prelude.Int.{ℤ, pos, negsuc}
use sysprg.Prelude.Text.{codes}
use sysprg.Wzip.{le_bytes}

pub data Out : Type 0 where
  text : List ℕ → Out
  number : ℕ → Out
  bytes : List ℕ → Out

-- The loop of `asciitobin` ends with `res`, overflows, or has more than the given rounds.
pub data Conversion : Type 0 where
  converted : ℕ → Conversion
  overflow : Conversion
  unfinished : Conversion

unfoldable pub to_bin_loop : ℕ → ℕ → ℕ → ℕ → Conversion
to_bin_loop zero input res i = if input == 0 then converted res else unfinished
to_bin_loop (suc n) input res i =
    let res' = res + i * (input % 2) in
    let rest = to_bin_loop n (input / 2) res' (i * 10) in
    if input == 0
    then converted res
    else if ltb res' (2 ^ 31) && ltb (i * 10) (2 ^ 31)
    then rest
    else overflow

-- `asciitobin`, the number that it prints last; a byte has 8 bits, so 8 rounds are enough.
unfoldable pub asciitobin : ℕ → Conversion
unfolding to_bin_loop
asciitobin input = to_bin_loop 8 input 0 1

-- `sizeof(num)` and `sizeof(ch)`
unfoldable pub getwritesz : ℕ → ℕ → ℕ
getwritesz num ch = 4 + 1

-- `writenumch`: what it writes and what it returns.
unfoldable pub writenumch : ℕ → ℕ → List Out × ℕ
unfolding getwritesz
writenumch num ch = (
  text (codes "num bytes being written: ")
      ∷ number (getwritesz num ch)
      ∷ text (codes "\n")
      ∷ bytes (le_bytes num)
      ∷ number ch
      ∷ [],
  0,
)

-- `rec` as the `u_int32_t` that `writenumch` takes
abbrev pub as_u32 : ℤ → ℕ
as_u32 (pos n) = n % 2 ^ 32
as_u32 (negsuc n) = (2 ^ 32 - suc n % 2 ^ 32) % 2 ^ 32

-- `*argv[2]`, with the NUL at the end of a text
abbrev pub first_char : List ℕ → ℕ
first_char [] = 0
first_char (c ∷ cs) = c

abbrev pub unsuccessful : ℕ → List Out
unsuccessful count = if count == 0 then [] else text (codes "Write unsuccessful!\n") ∷ []

abbrev pub usage_line : List Out × ℕ
usage_line = (text (codes "Usage: test_byteout <u_int32_t> <char>\n") ∷ [], 0)

module _ (atoi : List ℕ → ℤ) where
  -- With two arguments: what `main` writes and what it returns. A byte from 128 on is a negative
  -- `char`.
  unfoldable pub write_args : List ℕ → List ℕ → List Out × ℕ
  unfolding writenumch
  write_args rec char =
      let ch = first_char char in
      let (out, count) = writenumch (as_u32 (atoi rec)) ch in
      if ltb 127 ch then ([], 1) else (
        text (codes "size of u_int8_t: ")
              ∷ number 1
              ∷ text (codes "\nargv[2]: ")
              ∷ bytes (ch ∷ [])
              ∷ text (codes " as int: ")
              ∷ number ch
              ∷ text (codes "\n")
              ∷ out
            ++ unsuccessful count,
        0,
      )

  -- `main` with `nargs` for `argc`, after its first lines.
  abbrev by_args : List (List ℕ) → List Out × ℕ
  by_args (rec ∷ char ∷ []) = write_args rec char
  by_args [] = usage_line
  by_args (rec ∷ []) = usage_line
  by_args (rec ∷ char ∷ more ∷ args) = usage_line

  -- `main`, on the arguments after the program's name.
  unfoldable pub test_main : List (List ℕ) → List Out × ℕ
  test_main args =
      let (out, status) = by_args args in
      (
        text (codes "short test is ")
            ∷ number 2
            ∷ text (codes " bytes\nnargs: ")
            ∷ number (1 + length args)
            ∷ text (codes "\n")
            ∷ out,
        status,
      )
