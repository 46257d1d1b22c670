-- ===== src/Wzip/Lines.antt =====
-- `readlines` of wzip.c over a whole file: reading by lines does not show in the result.
use sysprg.Prelude.{
  ℕ, zero, suc, ◌+◌, ◌^◌, ◌≤◌, ◌<◌, ◌≡◌, refl, ◌∙◌, ap, List, [], ◌∷◌, ◌++◌, append-nil, sym,
  append_assoc, length, length-append, ◌==◌, some, inl, inr, Bool-cases, arith,
}
use sysprg.Wzip.{
  Token, Scan, print_token, begin_line, scan_char, scan_line, getline, read_line, read_loop,
  readlines, null_token,
}
use sysprg.Wzip.Encoding.{encode, runs_from}
use sysprg.Wzip.Push.{
  push, push-same, push-new, push_all, IsLive, NulFree, push-IsLive, begin-push, scan_line-push_all,
  push_all-append, push_all-IsLive, NulFree-append, getline-cons,
}

read_line-push_all :
    (k c : ℕ) (line : List ℕ) (s t : Scan)
    → scan_char 0 c (begin_line c s) ≡ t
    → length line ≤ k
    → NulFree line
    → IsLive k t
    → read_line (c ∷ line) s ≡ push_all line t
unfolding read_line scan_line
read_line-push_all k c line s t e le nf v =
    rw e (scan_line-push_all k 1 line t (omega arith) le nf v)

room-split :
    (line left : List ℕ) {rest : List ℕ} {t : Scan}
    → line ++ left ≡ rest
    → IsLive (length rest) t
    → IsLive (length line + length left) t
room-split line left q v = record {
  counted = v.counted;
  held = v.held;
  last = v.last;
  room = omega (arith, ap length q, length-append line left);
}

module _ (c : ℕ) (rest line left : List ℕ) (s t : Scan) where
  -- One round of the loop, for a line that `getline` has split off.
  round :
      (fuel : ℕ)
      → getline (c ∷ rest) ≡ (c ∷ line, left)
      → line ++ left ≡ rest
      → scan_char 0 c (begin_line c s) ≡ t
      → NulFree rest
      → IsLive (length rest) t
      → read_loop (suc fuel) (c ∷ rest) s ≡ read_loop fuel left (push_all line t)
  unfolding read_loop
  round fuel p q e nf v = rw (
    p,
    read_line-push_all (length rest) c line s t e
        (omega (arith, ap length q, length-append line left)) (NulFree-append line left (rw q nf)).0
        v,
  )

  after :
      line ++ left ≡ rest
      → NulFree rest
      → IsLive (length rest) t
      → IsLive (length left) (push_all line t) × NulFree left
  after q nf v =
      let (nl, nr) = NulFree-append line left (rw q nf) in
      (push_all-IsLive (length left) line nl (room-split line left q v), nr)

read_rest :
    (fuel : ℕ) (file : List ℕ) (s : Scan)
    → length file < fuel
    → NulFree file
    → IsLive (length file) s
    → read_loop fuel file s ≡ some (push_all file s)
unfolding read_loop push_all
read_rest zero file s h nf v = elim h [ ]
read_rest (suc fuel) [] s h nf v = refl
read_rest (suc fuel) (c ∷ rest) s h nf v =
    let (line, left, p, q) = getline-cons c rest in
    let w : IsLive (length rest) (push c s) = push-IsLive nf.0 v in
    let (live, nr) = after c rest line left s (push c s) q nf.1 w in
    round c rest line left s (push c s) fuel p q (begin-push c s nf.0 v) nf.1 w
    ∙ read_rest fuel left (push_all line (push c s))
        (omega (arith, ap length q, length-append line left)) nr live
    ∙ ap some (sym (push_all-append line left (push c s)) ∙ ap (λ l. push_all l (push c s)) q)

-- A file whose first character takes the scanner to a live state `t`.
pub read_loop-push_all :
    (c : ℕ) (rest : List ℕ) (s t : Scan)
    → scan_char 0 c (begin_line c s) ≡ t
    → NulFree rest
    → IsLive (length rest) t
    → read_loop (suc (length (c ∷ rest))) (c ∷ rest) s ≡ some (push_all rest t)
read_loop-push_all c rest s t e nf v =
    let (line, left, p, q) = getline-cons c rest in
    let (live, nr) = after c rest line left s t q nf v in
    round c rest line left s t (suc (length rest)) p q e nf v
    ∙ read_rest (suc (length rest)) left (push_all line t)
        (omega (arith, ap length q, length-append line left)) nr live
    ∙ ap some (sym (push_all-append line left t) ∙ ap (λ l. push_all l t) q)

-- What `readlines` gives back, from a state that its first character brings about.
readlines-push_all :
    (c : ℕ) (rest out : List ℕ) (tok : Token) (t : Scan)
    → scan_char 0 c (begin_line c (record { out = out; tok = tok; lstch = 0 })) ≡ t
    → NulFree rest
    → IsLive (length rest) t
    → readlines (c ∷ rest) out tok ≡ some ((push_all rest t).out, (push_all rest t).tok)
unfolding readlines
readlines-push_all c rest out tok t e nf v =
    rw (read_loop-push_all c rest (record { out = out; tok = tok; lstch = 0 }) t e nf v, readlines)

-- One run of `n` bytes `a`, that is still held.
abbrev pub holding : List ℕ → ℕ → ℕ → Scan
holding out n a = record { out = out; tok = record { count = n; ch = a }; lstch = a }

-- The first file: its first character opens the first run.
pub readlines-start :
    (c : ℕ) (rest out : List ℕ)
    → 0 < c
    → NulFree rest
    → length (c ∷ rest) < 2 ^ 32
    → readlines (c ∷ rest) out null_token
      ≡ some ((push_all rest (holding out 1 c)).out, (push_all rest (holding out 1 c)).tok)
unfolding scan_char begin_line
readlines-start c rest out hc nf h =
    readlines-push_all c rest out null_token _ (ground arith) nf (omega arith)

-- A later file that begins with the byte of the run that the token holds.
pub readlines-carry :
    (c n : ℕ) (rest out : List ℕ)
    → 0 < n
    → 0 < c
    → n + length (c ∷ rest) < 2 ^ 32
    → NulFree rest
    → readlines (c ∷ rest) out (record { count = n; ch = c })
      ≡ some
          ((push_all rest (holding out (n + 1) c)).out, (push_all rest (holding out (n + 1) c)).tok)
unfolding scan_char begin_line
readlines-carry c n rest out hn hc room nf =
    readlines-push_all c rest out (record { count = n; ch = c }) _ (ground arith) nf (omega arith)

-- What is in stdout once the last run is written too.
abbrev pub flushed : List ℕ → Scan → List ℕ
flushed cs s = (push_all cs s).out ++ print_token (push_all cs s).tok

-- The records written and the one still held are those of the runs.
pub flushed-encode :
    (cs : List ℕ) (s : Scan) → flushed cs s ≡ s.out ++ encode (runs_from s.tok.count s.tok.ch cs)
unfolding push_all print_token encode runs_from
flushed-encode [] s = rw append-nil
flushed-encode (c ∷ cs) s = elim (Bool-cases (c == s.tok.ch)) [
  | inl e ↦ ap (flushed cs) (push-same c s e) ∙ rw (e, runs_from) (flushed-encode cs _)
  | inr e ↦
      ap (flushed cs) (push-new c s e)
      ∙ rw (e, runs_from) (flushed-encode cs _ ∙ append_assoc s.out (print_token s.tok) _)
]
