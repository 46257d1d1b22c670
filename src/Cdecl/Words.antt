-- ===== src/Cdecl/Words.antt =====
-- cdecl's `istype` and `classifystring`.
use sysprg.Prelude.{
  ℕ, ◌≤◌, ◌<◌, ◌≡◌, refl, ap, ◌∙◌, Bool, true, false, ◌||◌, ◌↔◌, inl, inr, Bool-cases, List, [],
  ◌∷◌, arith, length, ==_refl, ==-eq, ==-ne, ℕ_discrete, leb,
}
use mathlib.Core.List.{Memᴰ}
use sysprg.Prelude.Text.{codes}
use sysprg.Cdecl.{Token, type, ok, fault, str_eq, istype, isqualifier, classifystring, maxtokenlen}

pub str_eq_refl : (xs : List ℕ) → str_eq xs xs ≡ true
unfolding str_eq
str_eq_refl [] = refl
str_eq_refl (a ∷ xs) = rw (==_refl a, str_eq_refl xs) refl

str_eq-eq : (xs ys : List ℕ) → str_eq xs ys ≡ true → xs ≡ ys
unfolding str_eq
str_eq-eq [] [] h = refl
str_eq-eq [] (b ∷ ys) h = absurd cc
str_eq-eq (a ∷ xs) [] h = absurd cc
str_eq-eq (a ∷ xs) (b ∷ ys) h = elim (ℕ_discrete a b) [
  | yes e ↦ let t = str_eq-eq xs ys (rw (==-eq a b e) at h) in cc
  | no g ↦ let x : false ≡ true = rw (==-ne a b g) at h in absurd cc
]

-- The names of types that cdecl knows.
abbrev pub types : List (List ℕ)
types =
    codes "int"
    ∷ codes "char"
    ∷ codes "void"
    ∷ codes "signed"
    ∷ codes "unsigned"
    ∷ codes "short"
    ∷ codes "long"
    ∷ codes "float"
    ∷ codes "double"
    ∷ []

or-Mem :
    (str word : List ℕ) (words : List (List ℕ)) (later : Bool)
    → (later ≡ true → Memᴰ str words)
    → (str_eq str word || later) ≡ true
    → Memᴰ str (word ∷ words)
or-Mem str word words later f h = elim (Bool-cases (str_eq str word)) [
  | inl e ↦ Memᴰ.head (str_eq-eq str word e)
  | inr e ↦ Memᴰ.tail (f (rw e at h))
]

one-Mem : (str word : List ℕ) → str_eq str word ≡ true → Memᴰ str (word ∷ [])
one-Mem str word h = Memᴰ.head (str_eq-eq str word h)

istype-Mem : (str : List ℕ) → istype str ≡ true → Memᴰ str types
unfolding istype
istype-Mem str = or-Mem str _ _ _ (
    or-Mem str _ _ _ (
      or-Mem str _ _ _ (
        or-Mem str _ _ _ (
          or-Mem str _ _ _
            (or-Mem str _ _ _ (or-Mem str _ _ _ (or-Mem str _ _ _ (one-Mem str _))))))))

or-true :
    (str word : List ℕ) (words : List (List ℕ)) (later : Bool)
    → (Memᴰ str words → later ≡ true)
    → Memᴰ str (word ∷ words)
    → (str_eq str word || later) ≡ true
or-true str word words later f (Memᴰ.head e) =
    rw (ap (λ s. str_eq s word) e ∙ str_eq_refl word) refl
or-true str word words later f (Memᴰ.tail m) = elim (Bool-cases (str_eq str word)) [
  | inl e ↦ rw e refl
  | inr e ↦ rw e (f m)
]

one-true : (str word : List ℕ) → Memᴰ str (word ∷ []) → str_eq str word ≡ true
one-true str word (Memᴰ.head e) = ap (λ s. str_eq s word) e ∙ str_eq_refl word
one-true str word (Memᴰ.tail m) = elim m [ ]

Mem-istype : (str : List ℕ) → Memᴰ str types → istype str ≡ true
unfolding istype
Mem-istype str = or-true str _ _ _ (
    or-true str _ _ _ (
      or-true str _ _ _ (
        or-true str _ _ _ (
          or-true str _ _ _
            (or-true str _ _ _ (or-true str _ _ _ (or-true str _ _ _ (one-true str _))))))))

-- `istype` is true of the nine names of types and of nothing else.
pub istype_lem : (str : List ℕ) → (istype str ≡ true) ↔ Memᴰ str types
istype_lem str = (istype-Mem str, Mem-istype str)

not-istype : (str : List ℕ) → ¬ Memᴰ str types → istype str ≡ false
not-istype str n = elim (Bool-cases (istype str)) [
  | inl e ↦ absurd (n (istype-Mem str e))
  | inr e ↦ e
]

leb_lt : (a b : ℕ) → b < a → leb a b ≡ false
leb_lt a b h = ground arith

le_leb : (a b : ℕ) → a ≤ b → leb a b ≡ true
le_leb a b h = ground arith

-- With a string of less than 64 bytes `classifystring` stores it, and makes the token a type if it
-- is one of the nine names; otherwise it leaves the kind of the token before. A longer
-- string is written past the array.
pub classifystring_lem :
    (this : Token) (str : List ℕ)
    → (length str < maxtokenlen
        → (Memᴰ str types → classifystring this str ≡ ok (record { kind = type; string = str }))
          × ((¬ Memᴰ str types)
              → classifystring this str ≡ ok (record { kind = this.kind; string = str })))
      × (maxtokenlen ≤ length str → classifystring this str ≡ fault)
unfolding classifystring isqualifier
classifystring_lem this str = (
  λ h. (
    λ m. rw (leb_lt 64 (length str) h, Mem-istype str m) refl,
    λ n. rw (leb_lt 64 (length str) h, not-istype str n) refl,
  ),
  λ h. rw (le_leb 64 (length str) h) refl,
)
