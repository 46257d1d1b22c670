-- ===== src/Wzip/Encoding.antt =====
-- What wzip promises, independent of its scanner: the runs of a text, their five-byte records, and
-- how a reader gets the text back.
use sysprg.Prelude.{
  ℕ, zero, suc, ◌+◌, ◌*◌, ◌/◌, ◌%◌, ◌^◌, ◌<◌, ◌≡◌, refl, ap, ◌≢◌, true, false, inl, inr, Bool-cases,
  Option, none, some, List, [], ◌∷◌, ◌++◌, length, replicate, ◌==◌, arith,
}
use sysprg.Wzip.{Token, le_bytes}

-- A run of `n` bytes `a`, followed by `cs`.
unfoldable pub runs_from : ℕ → ℕ → List ℕ → List Token
runs_from n a [] = record { count = n; ch = a } ∷ []
runs_from n a (c ∷ cs) = elim (c == a) [
  | true ↦ runs_from (n + 1) a cs
  | false ↦ record { count = n; ch = a } ∷ runs_from 1 c cs
]

-- The maximal runs of a text, in order.
unfoldable pub rle : List ℕ → List Token
unfolding runs_from
rle [] = []
rle (c ∷ cs) = runs_from 1 c cs

unfoldable pub encode : List Token → List ℕ
encode [] = []
encode (t ∷ ts) = (le_bytes t.count ++ t.ch ∷ []) ++ encode ts

unfoldable pub expand : List Token → List ℕ
expand [] = []
expand (t ∷ ts) = replicate t.count t.ch ++ expand ts

-- A reader of the five-byte records; `none` if a record is cut short.
unfoldable pub decode : List ℕ → Option (List Token)
decode [] = some []
decode (a ∷ b ∷ c ∷ d ∷ e ∷ rest) = elim (decode rest) [
  | none ↦ none
  | some ts ↦ some (record { count = a + 256 * b + 65536 * c + 16777216 * d; ch = e } ∷ ts)
]
decode bytes = none

-- No run is empty, and neighbouring runs differ.
abbrev pub IsMaximal : List Token → Type 0
IsMaximal [] = Unit
IsMaximal (t ∷ []) = 0 < t.count
IsMaximal (t ∷ u ∷ ts) = (0 < t.count) × (t.ch ≢ u.ch) × IsMaximal (u ∷ ts)

replicate-snoc : (n a : ℕ) (xs : List ℕ) → replicate n a ++ a ∷ xs ≡ replicate (suc n) a ++ xs
replicate-snoc zero a xs = refl
replicate-snoc (suc n) a xs = ap (λ l. a ∷ l) (replicate-snoc n a xs)

expand-runs_from : (n a : ℕ) (cs : List ℕ) → expand (runs_from n a cs) ≡ replicate n a ++ cs
unfolding runs_from expand
expand-runs_from n a [] = refl
expand-runs_from n a (c ∷ cs) =
    ground (arith, expand-runs_from (n + 1) a cs, expand-runs_from 1 c cs, replicate-snoc n a cs)

pub expand-rle : (cs : List ℕ) → expand (rle cs) ≡ cs
unfolding rle expand
expand-rle [] = refl
expand-rle (c ∷ cs) = expand-runs_from 1 c cs

IsMaximal-cons :
    (t : Token) (n a : ℕ) (cs : List ℕ)
    → 0 < t.count
    → t.ch ≢ a
    → IsMaximal (runs_from n a cs)
    → IsMaximal (t ∷ runs_from n a cs)
unfolding runs_from
IsMaximal-cons t n a [] h ne m = (h, ne, m)
IsMaximal-cons t n a (c ∷ cs) h ne m = elim (Bool-cases (c == a)) [
  | inl e ↦ rw (e, runs_from) (IsMaximal-cons t (n + 1) a cs h ne (rw (e, runs_from) at m))
  | inr e ↦ rw (e, runs_from) (h, ne, rw (e, runs_from) at m)
]

-- The runs are maximal and not empty.
IsMaximal-runs_from : (n a : ℕ) (cs : List ℕ) → 0 < n → IsMaximal (runs_from n a cs)
unfolding runs_from
IsMaximal-runs_from n a [] h = h
IsMaximal-runs_from n a (c ∷ cs) h = elim (Bool-cases (c == a)) [
  | inl e ↦ rw (e, runs_from) (IsMaximal-runs_from (n + 1) a cs (omega arith))
  | inr e ↦
      rw (e, runs_from)
        (IsMaximal-cons (record { count = n; ch = a }) 1 c cs h (ground arith)
          (IsMaximal-runs_from 1 c cs (omega arith)))
]

pub IsMaximal-rle : (cs : List ℕ) → IsMaximal (rle cs)
unfolding rle
IsMaximal-rle [] = tt
IsMaximal-rle (c ∷ cs) = IsMaximal-runs_from 1 c cs (omega arith)

-- Every count fits into a `u_int32_t`.
abbrev pub AllFit : List Token → Type 0
AllFit [] = Unit
AllFit (t ∷ ts) = (t.count < 2 ^ 32) × AllFit ts

AllFit-runs_from : (n a : ℕ) (cs : List ℕ) → n + length cs < 2 ^ 32 → AllFit (runs_from n a cs)
unfolding runs_from
AllFit-runs_from n a [] h = (omega arith, tt)
AllFit-runs_from n a (c ∷ cs) h = elim (Bool-cases (c == a)) [
  | inl e ↦ rw (e, runs_from) (AllFit-runs_from (n + 1) a cs (omega arith))
  | inr e ↦ rw (e, runs_from) (omega arith, AllFit-runs_from 1 c cs (omega arith))
]

pub AllFit-rle : (cs : List ℕ) → length cs < 2 ^ 32 → AllFit (rle cs)
unfolding rle
AllFit-rle [] h = tt
AllFit-rle (c ∷ cs) h = AllFit-runs_from 1 c cs (omega arith)

le_bytes_sum :
    (n : ℕ)
    → n < 2 ^ 32
    → n % 256 + 256 * (n / 256 % 256) + 65536 * (n / 65536 % 256) + 16777216 * (n / 16777216 % 256)
      ≡ n
le_bytes_sum n h = omega arith

pub decode-encode : (ts : List Token) → AllFit ts → decode (encode ts) ≡ some ts
unfolding decode encode
decode-encode [] h = refl
decode-encode (t ∷ ts) h = ground (arith, decode-encode ts h.1, le_bytes_sum t.count h.0)
