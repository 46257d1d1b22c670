-- ===== src/Stdio/Laws.antt =====
-- Laws of the parts of the C library that wcat.c and wgrep.c use.
use sysprg.Prelude.{
  ℕ, zero, suc, ◌≤◌, ◌<◌, ◌≡◌, ◌≢◌, refl, ap, List, [], ◌∷◌, ◌++◌, arith, length, ==-eq, ==-ne,
  ℕ_discrete,
}
use sysprg.Stdio.{c_string, next_bytes, lines}

-- No byte is 0.
abbrev pub HasNoNul : List ℕ → Type 0
HasNoNul [] = Unit
HasNoNul (c ∷ cs) = (c ≢ 0) × HasNoNul cs

pub c_string_lem : (cs : List ℕ) → HasNoNul cs → c_string cs ≡ cs
unfolding c_string
c_string_lem [] h = refl
c_string_lem (c ∷ cs) (h, hs) = rw (==-ne c 0 h, c_string_lem cs hs) refl

abbrev pub concat : List (List ℕ) → List ℕ
concat [] = []
concat (l ∷ ls) = l ++ concat ls

-- What `next_bytes` reads and leaves of a file.
pub record Split (n : ℕ) (file : List ℕ) : Type 0 where
  pub whole : (next_bytes n file).0 ++ (next_bytes n file).1 ≡ file
  pub clean : HasNoNul file → HasNoNul (next_bytes n file).0 × HasNoNul (next_bytes n file).1
  pub left_le : length (next_bytes n file).1 ≤ length file

pub next_bytes-Split : (n : ℕ) (file : List ℕ) → Split n file
unfolding next_bytes
next_bytes-Split zero file = record { whole = refl; clean = λ h. (tt, h); left_le = omega arith }
next_bytes-Split (suc n) [] = record { whole = refl; clean = λ h. (tt, tt); left_le = omega arith }
next_bytes-Split (suc n) (c ∷ cs) = elim (ℕ_discrete c 10) [
  | yes e ↦ record {
    whole = rw (==-eq c 10 e) refl;
    clean = λ h. rw (==-eq c 10 e) ((h.0, tt), h.1);
    left_le = rw (==-eq c 10 e) (omega arith);
  }
  | no g ↦
      let s = next_bytes-Split n cs in
      record {
        whole = rw (==-ne c 10 g) (ap (λ xs. c ∷ xs) s.whole);
        clean = λ h. rw (==-ne c 10 g) ((h.0, (s.clean h.1).0), (s.clean h.1).1);
        left_le = rw (==-ne c 10 g) (omega (arith, s.left_le));
      }
]

pub next_bytes-less :
    (n c : ℕ) (cs : List ℕ) → length (next_bytes (suc n) (c ∷ cs)).1 < length (c ∷ cs)
unfolding next_bytes
next_bytes-less n c cs = elim (ℕ_discrete c 10) [
  | yes e ↦ rw (==-eq c 10 e) (omega arith)
  | no g ↦ rw (==-ne c 10 g) (omega (arith, (next_bytes-Split n cs).left_le))
]

-- The lines make up the file.
pub concat-lines : (file : List ℕ) → concat (lines file) ≡ file
unfolding lines
concat-lines [] = refl
concat-lines (c ∷ cs) = elim (ℕ_discrete c 10) [
  | yes e ↦ rw (==-eq c 10 e) (ap (λ xs. c ∷ xs) (concat-lines cs))
  | no g ↦ rw (==-ne c 10 g) (joined (lines cs) (concat-lines cs))
]
  where
    joined :
        (rest : List (List ℕ))
        → concat rest ≡ cs
        → concat (elim rest [ [] ↦ (c ∷ []) ∷ [] | line ∷ more ↦ (c ∷ line) ∷ more ]) ≡ c ∷ cs
    joined [] e = ap (λ xs. c ∷ xs) e
    joined (line ∷ more) e = ap (λ xs. c ∷ xs) e
