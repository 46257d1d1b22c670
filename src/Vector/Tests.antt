-- ===== src/Vector/Tests.antt =====
-- vector.c on the data of its `main`.
use sysprg.Prelude.{◌≡◌, refl, none, some, [], ◌∷◌, arith}
use sysprg.Prelude.Int.{pos}
use sysprg.Vector.{Vector, fault, init_vector, push_each}
use sysprg.Vector.Laws.{Holds, Pushes, push_each-init}

push_each-init_example :
    Pushes 1 (pos 1 ∷ pos 2 ∷ []) (push_each (init_vector 1) (pos 1 ∷ pos 2 ∷ []))
push_each-init_example = push_each-init 1 (pos 1 ∷ pos 2 ∷ [])

one : Vector
one = record { sz = 2; nitems = 1; elem = some (pos 4) ∷ none ∷ [] }

one-Holds : Holds one (pos 4 ∷ [])
unfolding one
one-Holds = record {
  counted = refl;
  block = omega arith;
  room = omega arith;
  small = omega arith;
  cells = λ i lt. ground arith;
}

-- `main` makes a vector of three, empties it, and pushes five values: the fifth is out of bounds.
five_pushes : push_each (init_vector 3) (pos 0 ∷ pos 1 ∷ pos 2 ∷ pos 3 ∷ pos 4 ∷ []) ≡ fault
unfolding push_each init_vector
five_pushes = refl
