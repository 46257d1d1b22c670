-- ===== src/BinSearch.antt =====
-- process_api/callexec2/callexec2.c: `readints`, `cmpfunc` and `binsearch`, by which the parent looks
-- for a number among those that its child wrote.
--
-- What `fscanf(fp, "%d", ..)` meets is a list: a number, or a text that is none; its end is the end
-- of the file. At most 64 numbers are read, so no sum of two indices leaves the range of `int`.
pub mod Search
pub mod Reading
pub mod Program
mod Tests
use sysprg.Prelude.{
  ℕ, zero, suc, ◌+◌, ◌-◌, ◌/◌, Bool, true, false, Option, none, some, List, [], ◌∷◌, ltb,
  if◌then◌else◌,
}
use sysprg.Prelude.Int.{ℤ, pos, negsuc, ltb_ℤ}

abbrev pub maxlines : ℕ
maxlines = 64

-- The loop of `binsearch` for at most `fuel` rounds. `high` starts at n - 1 and may become -1, so
-- `top` is `high + 1`: `low <= high` is `low < top` and `high = mid - 1` is `top = mid`.
-- `none`: the rounds did not do.
pub search_loop : ℕ → ℤ → (ℕ → ℤ) → ℕ → ℕ → Option ℤ
search_loop zero x v low top = if ltb low top then none else some (negsuc 0)
search_loop (suc fuel) x v low top =
    let mid = (low + top - 1) / 2 in
    let left = search_loop fuel x v low mid in
    let right = search_loop fuel x v (mid + 1) top in
    if ltb low top
    then (if ltb_ℤ x (v mid) then left else if ltb_ℤ (v mid) x then right else some (pos mid))
    else some (negsuc 0)

-- `binsearch(x, v, n)`, the index or -1; `n` rounds are enough.
unfoldable pub binsearch : ℤ → (ℕ → ℤ) → ℕ → Option ℤ
unfolding search_loop
binsearch x v n = search_loop n x v 0 n

-- `intptr[nints++] = num`, before the rest that is read
abbrev pub store_then : ℤ → Option (List ℤ) → Option (List ℤ)
store_then num none = none
store_then num (some nums) = some (num ∷ nums)

-- The loop of `readints` with `n` places left and `num` as the last `fscanf` left it. At the end of
-- the file `fscanf` gives EOF, which is not 0, and leaves `num` alone.
pub read_loop_ints : ℕ → ℤ → List (Option ℤ) → Option (List ℤ)
read_loop_ints zero num file = some []
read_loop_ints (suc n) num [] = store_then num (read_loop_ints n num [])
read_loop_ints (suc n) num (some k ∷ file) = store_then k (read_loop_ints n k file)
read_loop_ints (suc n) num (none ∷ file) = none

-- What `readints` writes to the array; `none`: -1. The file is `none` if `fopen` fails.
unfoldable pub readints : Option (List (Option ℤ)) → Option (List ℤ)
unfolding read_loop_ints
readints none = none
readints (some file) = read_loop_ints maxlines (pos 0) file

unfoldable pub cmpfunc : ℤ → ℤ → ℕ
cmpfunc c1 c2 = if ltb_ℤ c1 c2 then 0 else 1
