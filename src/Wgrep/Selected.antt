-- ===== src/Wgrep/Selected.antt =====
-- wgrep.c prints the lines that contain the term, and no others.
use sysprg.Prelude.{
  ℕ, ◌<◌, ◌≡◌, refl, ap, ◌∙◌, true, false, inl, inr, Bool-cases, Option, some, List, [], ◌∷◌, ◌++◌,
  arith, length, append_assoc, append-nil, ==-eq, ==-ne, ==_refl, ℕ_discrete, leb,
}
use sysprg.Stdio.{c_string, lines, strstr, is_prefix}
use sysprg.Stdio.Laws.{HasNoNul, c_string_lem, concat, concat-lines}
use sysprg.Wgrep.{print_line, print_lines, search_files, main, exit}

-- The needle stands somewhere in the hay.
pub record Contains (needle hay : List ℕ) : Type 0 where
  pub before : List ℕ
  pub behind : List ℕ
  pub split : hay ≡ before ++ needle ++ behind

is_prefix-true : (needle behind : List ℕ) → is_prefix needle (needle ++ behind) ≡ true
unfolding is_prefix
is_prefix-true [] behind = refl
is_prefix-true (n ∷ needle) behind = rw (==_refl n, is_prefix-true needle behind) refl

is_prefix-split :
    (needle hay : List ℕ)
    → is_prefix needle hay ≡ true
    → (behind : List ℕ) × (hay ≡ needle ++ behind)
unfolding is_prefix
is_prefix-split [] hay h = (hay, refl)
is_prefix-split (n ∷ needle) [] h = absurd cc
is_prefix-split (n ∷ needle) (c ∷ hay) h = elim (ℕ_discrete n c) [
  | yes e ↦
      let (behind, s) = is_prefix-split needle hay (rw (==-eq n c e) at h) in
      (behind, rw e (ap (λ xs. c ∷ xs) s))
  | no g ↦ let x : false ≡ true = rw (==-ne n c g) at h in absurd cc
]

pub strstr-Contains : (hay needle : List ℕ) → strstr hay needle ≡ true → Contains needle hay
unfolding strstr
strstr-Contains [] needle h =
    let (behind, s) = is_prefix-split needle [] h in
    record { before = []; behind = behind; split = s }
strstr-Contains (c ∷ hay) needle h = elim (Bool-cases (is_prefix needle (c ∷ hay))) [
  | inl e ↦
      let (behind, s) = is_prefix-split needle (c ∷ hay) e in
      record { before = []; behind = behind; split = s }
  | inr e ↦
      let r = strstr-Contains hay needle (rw e at h) in
      record { before = c ∷ r.before; behind = r.behind; split = ap (λ xs. c ∷ xs) r.split }
]

strstr-found : (before needle behind : List ℕ) → strstr (before ++ needle ++ behind) needle ≡ true
unfolding strstr
strstr-found [] [] [] = refl
strstr-found [] [] (c ∷ behind) = refl
strstr-found [] (n ∷ needle) behind = rw (is_prefix-true (n ∷ needle) behind) refl
strstr-found (c ∷ before) needle behind =
    elim (Bool-cases (is_prefix needle (c ∷ before ++ needle ++ behind))) [
      | inl e ↦ rw e refl
      | inr e ↦ rw (e, strstr-found before needle behind) refl
    ]

-- The text is made of those of the lines that contain the term, in order.
pub data Selects (term : List ℕ) : List (List ℕ) → List ℕ → Type 0 where
  no_lines : Selects term [] []
  keep :
      {line out : List ℕ} {rest : List (List ℕ)}
      → Contains term line
      → Selects term rest out
      → Selects term (line ∷ rest) (line ++ out)
  leave :
      {line out : List ℕ} {rest : List (List ℕ)}
      → ¬ Contains term line
      → Selects term rest out
      → Selects term (line ∷ rest) out

abbrev pub Clean : List (List ℕ) → Type 0
Clean [] = Unit
Clean (line ∷ rest) = HasNoNul line × Clean rest

not-Contains : (term line : List ℕ) → strstr line term ≡ false → ¬ Contains term line
not-Contains term line e c =
    let t = strstr-found c.before term c.behind in
    let u : strstr line term ≡ true = ap (λ hay. strstr hay term) c.split ∙ t in cc

print_lines-Selects :
    (term : List ℕ) (ls : List (List ℕ)) → Clean ls → Selects term ls (print_lines term ls)
unfolding print_lines print_line
print_lines-Selects term [] clean = no_lines
print_lines-Selects term (line ∷ rest) (h, hs) =
    rw (c_string_lem line h) (elim (Bool-cases (strstr line term)) [
      | inl e ↦ rw e (keep (strstr-Contains line term e) (print_lines-Selects term rest hs))
      | inr e ↦ rw e (leave (not-Contains term line e) (print_lines-Selects term rest hs))
    ])

-- The names are those of files that can be opened, whose lines, all together, have no byte 0.
pub data Opens (fopen : List ℕ → Option (List ℕ)) : List (List ℕ) → List (List ℕ) → Type 0 where
  none_left : Opens fopen [] []
  opened :
      {name file : List ℕ} {names ls : List (List ℕ)}
      → fopen name ≡ some file
      → Clean (lines file)
      → Opens fopen names ls
      → Opens fopen (name ∷ names) (lines file ++ ls)

Clean-append : (ls ms : List (List ℕ)) → Clean ls → Clean ms → Clean (ls ++ ms)
Clean-append [] ms h g = g
Clean-append (l ∷ ls) ms (h, hs) g = (h, Clean-append ls ms hs g)

Opens-Clean :
    {fopen : List ℕ → Option (List ℕ)} {names ls : List (List ℕ)} → Opens fopen names ls → Clean ls
Opens-Clean none_left = tt
Opens-Clean (opened {file = file} {ls = ls} e clean more) =
    Clean-append (lines file) ls clean (Opens-Clean more)

print_lines-append :
    (term : List ℕ) (ls ms : List (List ℕ))
    → print_lines term ls ++ print_lines term ms ≡ print_lines term (ls ++ ms)
unfolding print_lines
print_lines-append term [] ms = refl
print_lines-append term (l ∷ ls) ms =
    append_assoc (print_line term l) (print_lines term ls) (print_lines term ms)
    ∙ ap (λ xs. print_line term l ++ xs) (print_lines-append term ls ms)

search_files_lem :
    (fopen : List ℕ → Option (List ℕ)) (term : List ℕ) (names ls : List (List ℕ))
    → Opens fopen names ls
    → search_files fopen term names ≡ exit 0 (print_lines term ls)
unfolding search_files print_lines
search_files_lem fopen term [] [] none_left = refl
search_files_lem fopen term [] (l ∷ ls) h = elim h [ ]
search_files_lem fopen term (name ∷ names) _ (opened {file = file} {ls = ls} e clean more) =
    rw (search_files, e, search_files_lem fopen term names ls more)
      (ap (exit 0) (print_lines-append term (lines file) ls))

leb_lt : (a b : ℕ) → b < a → leb a b ≡ false
leb_lt a b h = ground arith

main_lem :
    (fopen : List ℕ → Option (List ℕ)) (term name : List ℕ) (names ls : List (List ℕ))
    → length term < 255
    → Opens fopen (name ∷ names) ls
    → main fopen (term ∷ name ∷ names) ≡ exit 0 (print_lines term ls)
unfolding main
main_lem fopen term name names ls h o =
    rw (leb_lt 255 (length term) h) (search_files_lem fopen term (name ∷ names) ls o)

-- With a term of less than 255 bytes and one file at least, if all files can be opened and have no
-- byte 0, `main` returns 0 and prints, in order, those lines of the files that contain the
-- term.
pub main-Selects :
    (fopen : List ℕ → Option (List ℕ)) (term name : List ℕ) (names ls : List (List ℕ))
    → length term < 255
    → Opens fopen (name ∷ names) ls
    → (out : List ℕ) × (main fopen (term ∷ name ∷ names) ≡ exit 0 out) × Selects term ls out
main-Selects fopen term name names ls h o = (
  print_lines term ls,
  main_lem fopen term name names ls h o,
  print_lines-Selects term ls (Opens-Clean o),
)

strstr-nil : (hay : List ℕ) → strstr hay [] ≡ true
unfolding strstr is_prefix
strstr-nil [] = refl
strstr-nil (c ∷ hay) = refl

print_lines-nil : (ls : List (List ℕ)) → Clean ls → print_lines [] ls ≡ concat ls
unfolding print_lines print_line
print_lines-nil [] clean = refl
print_lines-nil (line ∷ rest) (h, hs) =
    rw (strstr-nil (c_string line), c_string_lem line h, print_lines-nil rest hs) refl

-- The empty term is in every line: then `main` prints one file of no byte 0 as it is.
pub main-empty_term :
    (fopen : List ℕ → Option (List ℕ)) (name file : List ℕ)
    → fopen name ≡ some file
    → Clean (lines file)
    → main fopen ([] ∷ name ∷ []) ≡ exit 0 file
main-empty_term fopen name file e clean =
    main_lem fopen [] name [] (lines file ++ []) (omega arith) (opened e clean none_left)
    ∙ ap (λ ls. exit 0 (print_lines [] ls)) (append-nil (lines file))
    ∙ ap (exit 0) (print_lines-nil (lines file) clean ∙ concat-lines file)
