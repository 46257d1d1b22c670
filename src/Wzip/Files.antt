-- ===== src/Wzip/Files.antt =====
-- `procfiles` and `main` of wzip.c: what reaches stdout for a list of files.
use sysprg.Prelude.{
  ℕ, zero, suc, ◌+◌, ◌^◌, ◌<◌, ◌≡◌, refl, ◌∙◌, ap, List, [], ◌∷◌, ◌++◌, append-nil, sym, length,
  length-append, ◌==◌, Option, some, inl, inr, Bool-cases, arith, ==_refl,
}
use sysprg.Wzip.{Token, Scan, print_token, readlines, proc_loop}
use sysprg.Wzip.Push.{push, push_all, push-same, IsLive, NulFree, push_all-append, push_all-IsLive}
use sysprg.Wzip.Lines.{readlines-carry, holding, flushed}

abbrev pub concat : List (List ℕ) → List ℕ
concat [] = []
concat (f ∷ fs) = f ++ concat fs

abbrev pub last_or : ℕ → List ℕ → ℕ
last_or a [] = a
last_or a (c ∷ cs) = last_or c cs

-- `fopen` finds these contents under these names.
abbrev pub Opens : (List ℕ → Option (List ℕ)) → List (List ℕ) → List (List ℕ) → Type 0
Opens fopen [] [] = Unit
Opens fopen (f ∷ names) (file ∷ files) = (fopen f ≡ some file) × Opens fopen names files
Opens fopen _ _ = ⊥

-- The files have no NUL byte, and each that is not empty begins with the last byte before it.
abbrev pub Continues : ℕ → List (List ℕ) → Type 0
Continues a [] = Unit
Continues a ([] ∷ files) = Continues a files
Continues a ((c ∷ cs) ∷ files) = (c ≡ a) × NulFree (c ∷ cs) × Continues (last_or c cs) files

pub lstch-push_all : (cs : List ℕ) (s : Scan) → (push_all cs s).lstch ≡ last_or s.lstch cs
unfolding push_all push
lstch-push_all [] s = refl
lstch-push_all (c ∷ cs) s = elim (Bool-cases (c == s.tok.ch)) [
  | inl e ↦ lstch-push_all cs (push c s) ∙ ap (λ x. last_or x cs) (rw (e, push))
  | inr e ↦ lstch-push_all cs (push c s) ∙ ap (λ x. last_or x cs) (rw (e, push))
]

readlines-nil : (out : List ℕ) (t : Token) → readlines [] out t ≡ some (out, t)
unfolding readlines
readlines-nil out t = refl

push_all-nil : (s : Scan) → push_all [] s ≡ s
unfolding push_all
push_all-nil s = refl

push_all-head :
    (c n : ℕ) (cs out : List ℕ)
    → push_all (c ∷ cs) (holding out n c) ≡ push_all cs (holding out (n + 1) c)
unfolding push_all
push_all-head c n cs out = ap (push_all cs) (push-same c (holding out n c) (==_refl c))

module _ (fopen : List ℕ → Option (List ℕ)) where
  -- A file that is not the last one, and leaves a run behind.
  pub proc-next :
      (fuel : ℕ) (f g : List ℕ) (names : List (List ℕ)) (file out out' : List ℕ) (t t' : Token)
      → fopen f ≡ some file
      → readlines file out t ≡ some (out', t')
      → 0 < t'.count
      → proc_loop fopen (suc fuel) (f ∷ g ∷ names) out t ≡ proc_loop fopen fuel (g ∷ names) out' t'
  unfolding proc_loop
  proc-next fuel f g names file out out' t t' o r h = ground arith

  -- The last file.
  pub proc-last :
      (fuel : ℕ) (f : List ℕ) (file out out' : List ℕ) (t t' : Token)
      → fopen f ≡ some file
      → readlines file out t ≡ some (out', t')
      → 0 < t'.count
      → proc_loop fopen (suc (suc fuel)) (f ∷ []) out t
        ≡ some (record { status = 0; out = out' ++ print_token t' })
  unfolding proc_loop
  proc-last fuel f file out out' t t' o r h = ground arith

-- Reading a file that continues the run in hand does to the scanner what its bytes do.
record Advance (file out : List ℕ) (n a k : ℕ) (files : List (List ℕ)) : Type 0 where
  out' : List ℕ
  n' : ℕ
  a' : ℕ
  reads :
      readlines file out (record { count = n; ch = a })
      ≡ some (out', record { count = n'; ch = a' })
  pushes : push_all file (holding out n a) ≡ holding out' n' a'
  counted : 0 < n'
  held : 0 < a'
  room : n' + k < 2 ^ 32
  goes_on : Continues a' files

pub live-holding : (k : ℕ) (s : Scan) → IsLive k s → s ≡ holding s.out s.tok.count s.tok.ch
live-holding k s v = ground arith

advance :
    (file out : List ℕ) (n a k : ℕ) (files : List (List ℕ))
    → 0 < n
    → 0 < a
    → n + (length file + k) < 2 ^ 32
    → Continues a (file ∷ files)
    → Advance file out n a k files
advance [] out n a k files hn ha room c = record {
  out' = out;
  n' = n;
  a' = a;
  reads = readlines-nil out (record { count = n; ch = a });
  pushes = push_all-nil (holding out n a);
  counted = hn;
  held = ha;
  room = omega arith;
  goes_on = c;
}
advance (c ∷ cs) out n a k files hn ha room (e, nf, more) = record {
  out' = s.out;
  n' = s.tok.count;
  a' = s.tok.ch;
  reads = rw (← e) (readlines-carry c n cs out hn nf.0 (omega arith) nf.1);
  pushes = rw (← e) (push_all-head c n cs out ∙ live-holding k s live);
  counted = live.counted;
  held = live.held;
  room = live.room;
  goes_on = rw (lstch-eq) more;
}
  where
    s : Scan
    s = push_all cs (holding out (n + 1) c)

    live : IsLive k s
    live =
        push_all-IsLive k cs nf.1
          (record { counted = omega arith; held = nf.0; last = refl; room = omega arith })

    lstch-eq : s.tok.ch ≡ last_or c cs
    lstch-eq = sym live.last ∙ lstch-push_all cs (holding out (n + 1) c)

pub flushed-nil :
    (file out out' : List ℕ) (n a n' a' : ℕ)
    → push_all file (holding out n a) ≡ holding out' n' a'
    → flushed (file ++ []) (holding out n a) ≡ out' ++ print_token (record { count = n'; ch = a' })
flushed-nil file out out' n a n' a' e =
    ap (λ l. flushed l (holding out n a)) (append-nil file)
    ∙ ap (λ (s : Scan). s.out ++ print_token s.tok) e

pub flushed-append :
    (xs ys out out' : List ℕ) (n a n' a' : ℕ)
    → push_all xs (holding out n a) ≡ holding out' n' a'
    → flushed (xs ++ ys) (holding out n a) ≡ flushed ys (holding out' n' a')
flushed-append xs ys out out' n a n' a' e =
    ap (λ (s : Scan). s.out ++ print_token s.tok)
      (push_all-append xs ys (holding out n a) ∙ ap (push_all ys) e)

module _ (fopen : List ℕ → Option (List ℕ)) where
  pub proc_loop-flushed :
      (fuel : ℕ) (f : List ℕ) (names : List (List ℕ)) (file : List ℕ) (files : List (List ℕ))
      (out : List ℕ) (n a : ℕ)
      → length (f ∷ names) < fuel
      → Opens fopen (f ∷ names) (file ∷ files)
      → Continues a (file ∷ files)
      → 0 < n
      → 0 < a
      → n + length (concat (file ∷ files)) < 2 ^ 32
      → proc_loop fopen fuel (f ∷ names) out (record { count = n; ch = a })
        ≡ some (record { status = 0; out = flushed (concat (file ∷ files)) (holding out n a) })
  proc_loop-flushed zero f names file files out n a le op co hn ha room = elim le [ ]
  proc_loop-flushed (suc zero) f names file files out n a le op co hn ha room = absurd (omega arith)
  proc_loop-flushed (suc (suc fuel)) f [] file [] out n a le op co hn ha room =
      proc-last fopen fuel f file out adv.out' _ _ op.0 adv.reads adv.counted
      ∙ ap (λ o. some (record { status = 0; out = o }))
          (sym (flushed-nil file out adv.out' n a adv.n' adv.a' adv.pushes))
    where
      adv : Advance file out n a 0 []
      adv = advance file out n a 0 [] hn ha (omega (arith, ap length (append-nil file))) co
  proc_loop-flushed (suc fuel) f [] file (g ∷ files) out n a le op co hn ha room = elim op.1 [ ]
  proc_loop-flushed (suc fuel) f (g ∷ names) file [] out n a le op co hn ha room = elim op.1 [ ]
  proc_loop-flushed (suc (suc fuel)) f (g ∷ names) file (next ∷ files) out n a le op co hn ha room =
      proc-next fopen (suc fuel) f g names file out adv.out' _ _ op.0 adv.reads adv.counted
      ∙ proc_loop-flushed (suc fuel) g names next files adv.out' adv.n' adv.a' (omega arith) op.1
          adv.goes_on adv.counted adv.held adv.room
      ∙ ap (λ o. some (record { status = 0; out = o }))
          (sym
            (flushed-append file (concat (next ∷ files)) out adv.out' n a adv.n' adv.a' adv.pushes))
    where
      adv : Advance file out n a (length (concat (next ∷ files))) (next ∷ files)
      adv =
          advance file out n a (length (concat (next ∷ files))) (next ∷ files) hn ha
            (omega (arith, length-append file (concat (next ∷ files)))) co
