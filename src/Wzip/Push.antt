-- ===== src/Wzip/Push.antt =====
-- The scanner of wzip.c in the middle of a text: each character takes one step of run-length coding.
use sysprg.Prelude.{
  ℕ, zero, suc, ◌+◌, ◌^◌, ◌≤◌, ◌<◌, ◌≡◌, refl, ap, List, [], ◌∷◌, ◌++◌, length, ◌==◌, if◌then◌else◌,
  true, false, inl, inr, Bool-cases, arith,
}
use sysprg.Wzip.{Scan, print_token, begin_line, scan_char, scan_line, getline}

-- One more byte: the run goes on, or is written out and a new one starts.
unfoldable pub push : ℕ → Scan → Scan
unfolding print_token
push c s =
    if c == s.tok.ch
    then record { out = s.out; tok = record { count = s.tok.count + 1; ch = s.tok.ch }; lstch = c }
    else record { out = s.out ++ print_token s.tok; tok = record { count = 1; ch = c }; lstch = c }

unfoldable pub push_all : List ℕ → Scan → Scan
unfolding push
push_all [] s = s
push_all (c ∷ cs) s = push_all cs (push c s)

-- The scanner has read a byte, and holds the run that ends with it; `k` bytes may follow.
pub record IsLive (k : ℕ) (s : Scan) : Type 0 where
  pub counted : 0 < s.tok.count
  pub held : 0 < s.tok.ch
  pub last : s.lstch ≡ s.tok.ch
  pub room : s.tok.count + k < 2 ^ 32

abbrev pub NulFree : List ℕ → Type 0
NulFree [] = Unit
NulFree (c ∷ cs) = (0 < c) × NulFree cs

pub push-same :
    (c : ℕ) (s : Scan)
    → (c == s.tok.ch) ≡ true
    → push c s
      ≡ record { out = s.out; tok = record { count = s.tok.count + 1; ch = s.tok.ch }; lstch = c }
unfolding push
push-same c s e = rw e

pub push-new :
    (c : ℕ) (s : Scan)
    → (c == s.tok.ch) ≡ false
    → push c s
      ≡ record { out = s.out ++ print_token s.tok; tok = record { count = 1; ch = c }; lstch = c }
unfolding push
push-new c s e = rw e

pub push-IsLive : {k c : ℕ} {s : Scan} → 0 < c → IsLive (suc k) s → IsLive k (push c s)
unfolding push
push-IsLive h v = ground arith

-- Inside a line.
scan_char-push :
    (i c : ℕ) (s : Scan) {k : ℕ} → 0 < i → 0 < c → IsLive (suc k) s → scan_char i c s ≡ push c s
unfolding scan_char push
scan_char-push i c s hi hc v = ground arith

-- At the head of a line that is not the first of the file.
pub begin-push :
    (c : ℕ) (s : Scan) {k : ℕ}
    → 0 < c
    → IsLive (suc k) s
    → scan_char 0 c (begin_line c s) ≡ push c s
unfolding scan_char begin_line push
begin-push c s hc v = ground arith

pub scan_line-push_all :
    (k i : ℕ) (line : List ℕ) (s : Scan)
    → 0 < i
    → length line ≤ k
    → NulFree line
    → IsLive k s
    → scan_line i line s ≡ push_all line s
unfolding scan_line push_all
scan_line-push_all k i [] s hi le nf v = refl
scan_line-push_all zero i (c ∷ line) s hi le nf v = absurd (omega arith)
scan_line-push_all (suc k) i (c ∷ line) s hi le nf v = rw (scan_char-push i c s hi nf.0 v) (
    scan_line-push_all k (i + 1) line (push c s) (omega arith) (omega arith) nf.1
      (push-IsLive nf.0 v))

pub push_all-append :
    (xs ys : List ℕ) (s : Scan) → push_all (xs ++ ys) s ≡ push_all ys (push_all xs s)
unfolding push_all
push_all-append [] ys s = refl
push_all-append (x ∷ xs) ys s = push_all-append xs ys (push x s)

pub push_all-IsLive :
    (k : ℕ) (xs : List ℕ) {s : Scan}
    → NulFree xs
    → IsLive (length xs + k) s
    → IsLive k (push_all xs s)
unfolding push_all
push_all-IsLive k [] nf v = omega arith
push_all-IsLive k (x ∷ xs) nf v = push_all-IsLive k xs nf.1 (
    push-IsLive nf.0
      (record { counted = v.counted; held = v.held; last = v.last; room = omega arith }))

pub NulFree-append : (xs ys : List ℕ) → NulFree (xs ++ ys) → NulFree xs × NulFree ys
NulFree-append [] ys h = (tt, h)
NulFree-append (x ∷ xs) ys h = let (p, q) = NulFree-append xs ys h.1 in ((h.0, p), q)

-- A call of `getline` takes a line off the front of what is left.
pub getline-cons :
    (c : ℕ) (rest : List ℕ)
    → (line : List ℕ) × (left : List ℕ) × (getline (c ∷ rest) ≡ (c ∷ line, left))
      × (line ++ left ≡ rest)
unfolding getline
getline-cons c [] = ([], [], ground arith, refl)
getline-cons c (d ∷ rest) = elim (Bool-cases (c == 10)) [
  | inl e ↦ ([], d ∷ rest, rw (e, getline), refl)
  | inr e ↦
      let (line, left, p, q) = getline-cons d rest in
      (d ∷ line, left, rw (e, getline) (rw p refl), ap (λ l. d ∷ l) q)
]
