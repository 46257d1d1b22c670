-- ===== src/Vector.antt =====
-- datastructures/vector/src/vector.c: an array of `int`s that is meant to grow.
-- The heap block behind `elem` is the list of its cells; a cell never written reads as `none`. An
-- access past the block is a fault.
pub mod Laws
mod Tests
use sysprg.Prelude.{
  ℕ, zero, suc, ◌+◌, ◌-◌, ◌≤◌, ◌<◌, Bool, true, false, Option, none, some, List, [], ◌∷◌, ltb,
  if◌then◌else◌, get_elem?, set, length, take, replicate, ◌++◌,
}
use sysprg.Prelude.Int.{ℤ, pos, negsuc}

-- `struct vector`
pub record Vector : Type 0 where
  pub sz : ℕ
  pub nitems : ℕ
  pub elem : List (Option ℤ)

pub data Result (A : Type 0) : Type 0 where
  ok : A → Result A
  fault : Result A

-- `malloc(n * sizeof(int))`: `n` cells that hold nothing yet.
abbrev pub malloc : ℕ → List (Option ℤ)
malloc n = replicate n none

-- `realloc(elem, n * sizeof(int))`: the first cells are kept.
abbrev pub realloc : List (Option ℤ) → ℕ → List (Option ℤ)
realloc cells zero = []
realloc [] (suc n) = none ∷ realloc [] n
realloc (c ∷ cells) (suc n) = c ∷ realloc cells n

-- For `sz < 1` only a message is printed.
unfoldable pub init_vector : ℕ → Vector
init_vector sz = record { sz = sz; nitems = 0; elem = malloc sz }

-- `v->elem[i] = item`
abbrev store : List (Option ℤ) → ℕ → ℤ → Option (List (Option ℤ))
store cells i item = if ltb i (length cells) then some (set cells i (some item)) else none

-- The block is made of `sz + 1` cells where it may be too small; `sz` itself stays.
unfoldable pub push_vector : Vector → ℤ → Result Vector
push_vector v item =
    let cells = if ltb v.sz (v.nitems + 1) then realloc v.elem (v.sz + 1) else v.elem in
    elim (store cells v.nitems item) [
      | none ↦ fault
      | some cells' ↦ ok (record v { elem = cells'; nitems = v.nitems + 1 })
    ]

-- On an empty vector a message is printed and -1 returned. `none`: a cell that was never written.
unfoldable pub pop_vector : Vector → Result (Option ℤ × Vector)
pop_vector v =
    if ltb v.nitems 1 then ok (some (negsuc 0), v) else elim (get_elem? v.elem (v.nitems - 1)) [
      | none ↦ fault
      | some val ↦ ok (val, record v { nitems = v.nitems - 1 })
    ]

-- The values that `print_vector` prints, first to last; `none` if it reads past the block.
print_from : ℕ → ℕ → List (Option ℤ) → Option (List (Option ℤ))
print_from i zero cells = some []
print_from i (suc n) cells = elim (get_elem? cells i) [
  | none ↦ none
  | some val ↦ elim (print_from (i + 1) n cells) [ none ↦ none | some vals ↦ some (val ∷ vals) ]
]

unfoldable pub print_vector : Vector → Option (List (Option ℤ))
unfolding print_from
print_vector v = print_from 0 v.nitems v.elem

unfoldable pub free_vector : Vector → Vector
free_vector v = record v { sz = 0; elem = [] }

-- A row of calls, as `main` makes them.
unfoldable pub push_each : Vector → List ℤ → Result Vector
unfolding push_vector
push_each v [] = ok v
push_each v (x ∷ xs) = elim (push_vector v x) [ fault ↦ fault | ok v' ↦ push_each v' xs ]
