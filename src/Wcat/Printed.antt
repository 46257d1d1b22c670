-- ===== src/Wcat/Printed.antt =====
-- wcat.c: what it prints and returns.
use sysprg.Prelude.{
  ℕ, zero, suc, ◌<◌, ◌≡◌, refl, sym, ap, ◌∙◌, Option, none, some, List, [], ◌∷◌, ◌++◌, arith,
  length, append_assoc, append-nil,
}
use sysprg.Stdio.{next_bytes}
use sysprg.Stdio.Laws.{HasNoNul, c_string_lem, concat, next_bytes-Split, next_bytes-less}
use sysprg.Wcat.{print_loop, print_file, main, unable_to_open}

shorter : (a b fuel : ℕ) → a < b → b < suc fuel → a < fuel
shorter a b fuel h g = omega arith

print_loop_lem :
    (fuel : ℕ) (file : List ℕ)
    → length file < fuel
    → HasNoNul file
    → print_loop fuel file ≡ some file
unfolding print_loop
print_loop_lem zero file h clean = absurd (omega arith)
print_loop_lem (suc fuel) [] h clean = refl
print_loop_lem (suc fuel) (c ∷ cs) h clean =
    let s = next_bytes-Split 254 (c ∷ cs) in
    let left = (next_bytes 254 (c ∷ cs)).1 in
    rw
      (print_loop_lem fuel left
        (shorter (length left) (length (c ∷ cs)) fuel (next_bytes-less 253 c cs) h)
        (s.clean clean).1)
      (ap (λ lbuf. some (lbuf ++ (next_bytes 254 (c ∷ cs)).1))
          (c_string_lem (next_bytes 254 (c ∷ cs)).0 (s.clean clean).0)
        ∙ ap some s.whole)

print_file_lem : (file : List ℕ) → HasNoNul file → print_file file ≡ some file
unfolding print_file
print_file_lem file clean = print_loop_lem (suc (length file)) file (omega arith) clean

-- The names are those of files that can be opened, with these contents, in which no byte is 0.
pub data Opens (fopen : List ℕ → Option (List ℕ)) : List (List ℕ) → List (List ℕ) → Type 0 where
  none_left : Opens fopen [] []
  opened :
      {name file : List ℕ} {names files : List (List ℕ)}
      → fopen name ≡ some file
      → HasNoNul file
      → Opens fopen names files
      → Opens fopen (name ∷ names) (file ∷ files)

after : List ℕ → Option (ℕ × List ℕ) → Option (ℕ × List ℕ)
after out none = none
after out (some (status, more)) = some (status, out ++ more)

after_nil : (r : Option (ℕ × List ℕ)) → r ≡ after [] r
unfolding after
after_nil none = refl
after_nil (some (status, more)) = refl

after_append :
    (xs ys : List ℕ) (r : Option (ℕ × List ℕ)) → after xs (after ys r) ≡ after (xs ++ ys) r
unfolding after
after_append xs ys none = refl
after_append xs ys (some (status, more)) =
    ap (λ out. some (status, out)) (sym (append_assoc xs ys more))

-- `main` on a file that can be opened
main-opened :
    (fopen : List ℕ → Option (List ℕ)) {name file : List ℕ} (rest : List (List ℕ))
    → fopen name ≡ some file
    → HasNoNul file
    → main fopen (name ∷ rest) ≡ after file (main fopen rest)
unfolding main after
main-opened fopen {name} {file} rest e clean =
    rw (main, e, print_file_lem file clean) (elim (main fopen rest) [ none ↦ refl | some r ↦ refl ])

main-after :
    (fopen : List ℕ → Option (List ℕ)) (names files rest : List (List ℕ))
    → Opens fopen names files
    → main fopen (names ++ rest) ≡ after (concat files) (main fopen rest)
main-after fopen [] [] rest none_left = after_nil (main fopen rest)
main-after fopen [] (file ∷ files) rest h = elim h [ ]
main-after fopen (name ∷ names) [] rest h = elim h [ ]
main-after fopen (name ∷ names) (file ∷ files) rest (opened e clean more) =
    main-opened fopen (names ++ rest) e clean
    ∙ ap (after file) (main-after fopen names files rest more)
    ∙ after_append file (concat files) (main fopen rest)

-- If all files can be opened and have no byte 0, `main` returns 0 and prints their bytes, one file
-- after the other. If a file that cannot be opened follows, it prints those before it and "Error: unable
-- to open file" with that file's name, leaves out those after it, and returns 1.
pub main-concat :
    (fopen : List ℕ → Option (List ℕ)) (names files : List (List ℕ))
    → Opens fopen names files
    → (main fopen names ≡ some (0, concat files))
      × ((bad : List ℕ) (rest : List (List ℕ))
          → fopen bad ≡ none
          → main fopen (names ++ bad ∷ rest) ≡ some (1, concat files ++ unable_to_open bad))
unfolding main after
main-concat fopen names files h = (
  ap (main fopen) (sym (append-nil names))
      ∙ main-after fopen names files [] h
      ∙ ap (λ out. some (0, out)) (append-nil (concat files)),
  λ bad rest e. main-after fopen names files (bad ∷ rest) h ∙ rw (main, e) refl,
)
