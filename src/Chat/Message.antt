-- ===== src/Chat/Message.antt =====
-- simpleTCP: what a typed line becomes in the buffer, and what is printed of it.
use sysprg.Prelude.{
  ℕ, zero, suc, ◌+◌, ◌-◌, ◌≤◌, ◌≡◌, ◌≢◌, refl, ap, ◌∙◌, Bool, true, false, ◌&&◌, if◌then◌else◌,
  List, [], ◌∷◌, ◌++◌, append_assoc, append-nil, length, length-append, set, replicate, ◌==◌, ==-ne,
  ltb, lt→ltb, ltb_ge, arith, dec_lt,
}
use sysprg.Prelude.Text.{codes}
use sysprg.Stdio.{is_prefix}
use sysprg.Stdio.Laws.{HasNoNul}
use sysprg.Chat.{max, Result, ok, fault, get_chars, type_message, print_string, is_exit}

-- No byte is a newline.
abbrev pub HasNoNewline : List ℕ → Type 0
HasNoNewline [] = Unit
HasNoNewline (c ∷ cs) = (c ≢ 10) × HasNoNewline cs

-- The buffer with a line in it, its newline and zeros.
abbrev pub filled : List ℕ → List ℕ
filled l = l ++ 10 ∷ replicate (79 - length l) 0

set-next :
    (done rest : List ℕ) (c : ℕ) → set (done ++ 0 ∷ rest) (length done) c ≡ (done ++ c ∷ []) ++ rest
set-next [] rest c = refl
set-next (d ∷ done) rest c = ap (λ xs. d ∷ xs) (set-next done rest c)

get_chars-fits :
    (l more done : List ℕ) (n m : ℕ)
    → HasNoNewline l
    → n ≡ length done
    → n + suc m ≡ 80
    → length l ≤ m
    → get_chars n (done ++ replicate (suc m) 0) (l ++ 10 ∷ more)
      ≡ ok ((done ++ l) ++ 10 ∷ replicate (m - length l) 0, more)
unfolding get_chars
get_chars-fits [] more done n m h g e lt =
    let all : m - 0 ≡ m = omega arith in
    let stored : set (done ++ replicate (suc m) 0) n 10 ≡ (done ++ []) ++ 10 ∷ replicate (m - 0) 0 =
      rw (g, append-nil done, all)
        (set-next done (replicate m 0) 10 ∙ append_assoc done (10 ∷ []) (replicate m 0)) in
    rw (lt→ltb n 80 (omega arith), stored) refl
get_chars-fits (c ∷ l) more done n zero h g e lt = absurd (omega arith)
get_chars-fits (c ∷ l) more done n (suc m) (h, hs) g e lt =
    let stored : set (done ++ replicate (suc (suc m)) 0) n c
        ≡ (done ++ c ∷ []) ++ replicate (suc m) 0 =
      rw g (set-next done (replicate (suc m) 0) c) in
    let ih =
      get_chars-fits l more (done ++ c ∷ []) (n + 1) m hs
        (omega (arith, length-append done (c ∷ []))) (omega arith) (omega arith) in
    let left : suc m - suc (length l) ≡ m - length l = omega arith in
    rw (lt→ltb n 80 (omega arith), ==-ne c 10 h, stored, ih, append_assoc done (c ∷ []) l, left)
      refl

get_chars-long :
    (l more buff : List ℕ) (n : ℕ)
    → HasNoNewline l
    → n ≤ 80
    → 80 ≤ n + length l
    → get_chars n buff (l ++ more) ≡ fault
unfolding get_chars
get_chars-long [] [] buff n h le e = refl
get_chars-long [] (c ∷ more) buff n h le e = rw (ltb_ge n 80 (omega arith)) refl
get_chars-long (c ∷ l) more buff n (h, hs) le e = elim (dec_lt n 80) [
  | yes lt ↦
      rw (lt→ltb n 80 lt, ==-ne c 10 h)
        (get_chars-long l more (set buff n c) (n + 1) hs (omega arith) (omega arith))
  | no ge ↦ rw (ltb_ge n 80 (omega arith)) refl
]

if_same : (b : Bool) → ◌≡◌ {A = Result (List ℕ × List ℕ)} (if b then fault else fault) fault
if_same true = refl
if_same false = refl

get_chars-ends : (l buff : List ℕ) (n : ℕ) → HasNoNewline l → get_chars n buff l ≡ fault
unfolding get_chars
get_chars-ends [] buff n h = refl
get_chars-ends (c ∷ l) buff n (h, hs) =
    rw (==-ne c 10 h, get_chars-ends l (set buff n c) (n + 1) hs) (if_same (ltb n 80))

print_string-filled :
    (l : List ℕ) (k : ℕ)
    → HasNoNul l
    → print_string (l ++ 10 ∷ replicate (suc k) 0) ≡ ok (l ++ 10 ∷ [])
unfolding print_string
print_string-filled [] k h = refl
print_string-filled (c ∷ l) k (h, hs) = rw (==-ne c 0 h, print_string-filled l k hs) refl

print_string-full : (l : List ℕ) → HasNoNul l → print_string (l ++ 10 ∷ []) ≡ fault
unfolding print_string
print_string-full [] h = refl
print_string-full (c ∷ l) (h, hs) = rw (==-ne c 0 h, print_string-full l hs) refl

is_prefix-line :
    (needle l rest : List ℕ)
    → HasNoNewline needle
    → is_prefix needle (l ++ 10 ∷ rest) ≡ is_prefix needle l
unfolding is_prefix
is_prefix-line [] l rest h = refl
is_prefix-line (n ∷ needle) [] rest (h, hs) = rw (==-ne n 10 h) refl
is_prefix-line (n ∷ needle) (c ∷ l) rest (h, hs) =
    ap (λ b. n == c && b) (is_prefix-line needle l rest hs)

pub message_lem :
    (l more : List ℕ)
    → HasNoNewline l
    → HasNoNul l
    → (type_message (l ++ 10 ∷ more) ≡ (if ltb (length l) 80 then ok (filled l, more) else fault))
      × (type_message l ≡ fault)
      × (print_string (filled l) ≡ (if ltb (length l) 79 then ok (l ++ 10 ∷ []) else fault))
unfolding type_message
message_lem l more h z = (typed, get_chars-ends l (replicate max 0) 0 h, printed)
  where
    typed :
        type_message (l ++ 10 ∷ more) ≡ (if ltb (length l) 80 then ok (filled l, more) else fault)
    typed = elim (dec_lt (length l) 80) [
      | yes lt ↦
          rw (lt→ltb (length l) 80 lt) (get_chars-fits l more [] 0 79 h refl refl (omega arith))
      | no ge ↦
          rw (ltb_ge (length l) 80 (omega arith))
            (get_chars-long l (10 ∷ more) (replicate max 0) 0 h (omega arith) (omega arith))
    ]

    printed : print_string (filled l) ≡ (if ltb (length l) 79 then ok (l ++ 10 ∷ []) else fault)
    printed = elim (dec_lt (length l) 79) [
      | yes lt ↦
          let room : 79 - length l ≡ suc (78 - length l) = omega arith in
          rw (lt→ltb (length l) 79 lt, room) (print_string-filled l (78 - length l) z)
      | no ge ↦
          let full : 79 - length l ≡ 0 = omega arith in
          rw (ltb_ge (length l) 79 (omega arith), full) (print_string-full l z)
    ]

pub is_exit-filled : (l : List ℕ) → is_exit (filled l) ≡ is_exit l
unfolding is_exit
is_exit-filled l = is_prefix-line (codes "exit") l (replicate (79 - length l) 0) (
  (λ e. omega (arith, e)),
  ((λ e. omega (arith, e)), ((λ e. omega (arith, e)), ((λ e. omega (arith, e)), tt))),
)
