-- ===== src/Wzip/Tests.antt =====
-- wzip.c on small files.
use sysprg.Prelude.{ℕ, ◌≡◌, refl, Option, none, some, List, [], ◌∷◌, arith}
use mathlib.Core.Option
use sysprg.Wzip.{Token, Exit, main}
use sysprg.Wzip.Encoding.{encode, decode, expand, rle, IsMaximal}
use sysprg.Wzip.Main.{main-rle, main-decode, main-hangs}

-- Three files by their names: "aab\n", "\nc", and an empty one.
abbrev disk : List ℕ → Option (List ℕ)
disk [] = some (97 ∷ 97 ∷ 98 ∷ 10 ∷ [])
disk (x ∷ []) = some (10 ∷ 99 ∷ [])
disk (x ∷ y ∷ []) = some []
disk (x ∷ y ∷ z ∷ []) = some (99 ∷ [])
disk _ = none

abbrev first_name : List ℕ
first_name = []

abbrev second_name : List ℕ
second_name = 50 ∷ []

abbrev empty_name : List ℕ
empty_name = 51 ∷ 51 ∷ []

abbrev byte_name : List ℕ
byte_name = 52 ∷ 52 ∷ 52 ∷ []

abbrev missing_name : List ℕ
missing_name = 53 ∷ 53 ∷ 53 ∷ 53 ∷ []

main-rle_example :
    main disk 3 (first_name ∷ second_name ∷ [])
    ≡ some (record { status = 0; out = encode (rle (97 ∷ 97 ∷ 98 ∷ 10 ∷ 10 ∷ 99 ∷ [])) })
main-rle_example =
    main-rle disk 3 97 (97 ∷ 98 ∷ 10 ∷ []) ((10 ∷ 99 ∷ []) ∷ []) first_name (second_name ∷ [])
      (omega arith) (refl, (refl, tt)) (omega arith) (refl, omega arith, tt) (omega arith)

main-decode_example :
    (r : Exit) × (ts : List Token) × (main disk 3 (first_name ∷ second_name ∷ []) ≡ some r)
    × (r.status ≡ 0)
    × (decode r.out ≡ some ts)
    × IsMaximal ts
    × (expand ts ≡ 97 ∷ 97 ∷ 98 ∷ 10 ∷ 10 ∷ 99 ∷ [])
main-decode_example =
    main-decode disk 3 97 (97 ∷ 98 ∷ 10 ∷ []) ((10 ∷ 99 ∷ []) ∷ []) first_name (second_name ∷ [])
      (omega arith) (refl, (refl, tt)) (omega arith) (refl, omega arith, tt) (omega arith)

main-hangs_example : main disk 1000 (empty_name ∷ first_name ∷ []) ≡ none
main-hangs_example = main-hangs disk 1000 empty_name (first_name ∷ []) refl

-- Two 'a', one 'b', two newlines, one 'c'.
main_bytes :
    main disk 3 (first_name ∷ second_name ∷ [])
    ≡ some (record {
      status = 0;
      out = 2 ∷ 0 ∷ 0 ∷ 0 ∷ 97 ∷ 1 ∷ 0 ∷ 0 ∷ 0 ∷ 98 ∷ 2 ∷ 0 ∷ 0 ∷ 0 ∷ 10 ∷ 1 ∷ 0 ∷ 0 ∷ 0 ∷ 99 ∷ [];
    })
unfolding main
main_bytes = refl

-- A file that begins with another byte than the one before it: the newline before is counted once
-- too often.
main_bytes_again :
    main disk 3 (first_name ∷ first_name ∷ [])
    ≡ some (record {
      status = 0;
      out =
          2 ∷ 0 ∷ 0 ∷ 0 ∷ 97 ∷ 1 ∷ 0 ∷ 0 ∷ 0 ∷ 98 ∷ 2 ∷ 0 ∷ 0 ∷ 0 ∷ 10 ∷ 2 ∷ 0 ∷ 0 ∷ 0 ∷ 97 ∷ 1 ∷ 0
          ∷ 0 ∷ 0 ∷ 98 ∷ 1 ∷ 0 ∷ 0 ∷ 0 ∷ 10 ∷ [];
    })
unfolding main
main_bytes_again = refl

-- A file that cannot be opened: the message, the complaint of `main`, and status 1.
missing_status : Option.map Exit.status (main disk 3 (missing_name ∷ [])) ≡ some 1
unfolding main
missing_status = refl
