-- ===== src/Memory.antt =====
-- memory/null/src/null.c, memory/pagingex0/src/array.c, memory/addrtransl/src/demo.c and
-- process/vmemman/vmemman.c: programs that use memory.
--
-- A block is the list of its values; an access past its end is a fault, and so is one through NULL.
pub mod Filling
mod Tests
use sysprg.Prelude.{
  ℕ, zero, suc, ◌+◌, Option, none, some, List, [], ◌∷◌, set, get_or, length, ltb, if◌then◌else◌,
}
use sysprg.Prelude.Int.{ℤ}
use sysprg.Prelude.Text.{codes}

pub data Run {ℓ} (A : Type ℓ) : Type ℓ where
  returns : A → Run A
  fault : Run A

-- `block[i] = value`
abbrev pub write : List ℕ → ℕ → ℕ → Run (List ℕ)
write block i value = if ltb i (length block) then returns (set block i value) else fault

abbrev pub and_then {ℓ κ} : {A : Type ℓ} {B : Type κ} → Run A → (A → Run B) → Run B
and_then (returns a) next = next a
and_then fault next = fault

-- array.c: the loop with `n` rounds left, from index `i` on.
unfoldable pub clear_from : ℕ → ℕ → List ℕ → Run (List ℕ)
clear_from zero i array = returns array
clear_from (suc n) i array = and_then (write array i 0) (clear_from n (i + 1))

-- `main` of array.c, with what stands in the array before.
unfoldable pub array_main : List ℕ → Run (List ℕ)
array_main array = clear_from 1000 0 array

-- null.c: `data[100] = 0` on the block that `malloc` gives, if it gives one.
abbrev pub store_past : Option (List ℕ) → Run (List ℕ)
store_past none = fault
store_past (some data_block) = write data_block 100 0

-- `main` of null.c, with what `free` makes of a value as an address: the block, or a fault.
pub free_each : (ℕ → List ℕ → Run (List ℕ)) → ℕ → ℕ → List ℕ → Run (List ℕ)
free_each free zero i block = returns block
free_each free (suc n) i block = and_then (free (get_or block i 0) block) (free_each free n (i + 1))

unfoldable pub null_main : (ℕ → List ℕ → Run (List ℕ)) → Option (List ℕ) → Run ℕ
null_main free malloced =
    and_then (store_past malloced)
      (λ block. and_then (free_each free 100 0 block) (λ left. returns (get_or left 55 0)))

-- `func` of demo.c: `x` at its end.
abbrev pub func : ℕ
func = 3000 + 3

-- vmemman.c, with what `sysconf(_SC_PAGESIZE)` gives: the text and the number printed.
abbrev pub pagesize_main : ℤ → List ℕ × ℤ
pagesize_main pagesize = (codes "Pagesize on this system is: %ld\n", pagesize)
