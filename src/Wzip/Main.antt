-- ===== src/Wzip/Main.antt =====
-- `main` of wzip.c: what reaches stdout, from the first file to the exit status.
use sysprg.Prelude.{
  ℕ, zero, suc, ◌+◌, ◌^◌, ◌<◌, ◌≡◌, refl, ◌∙◌, ap, List, [], ◌∷◌, ◌++◌, append-nil, sym, length,
  length-append, Option, none, some, arith, ==_refl,
}
use sysprg.Wzip.{Token, Scan, Exit, print_token, readlines, null_token, proc_loop, procfiles, main}
use sysprg.Wzip.Encoding.{
  encode, rle, decode, expand, IsMaximal, decode-encode, expand-rle, IsMaximal-rle, AllFit-rle,
}
use sysprg.Wzip.Push.{push_all, push-same, IsLive, NulFree, push_all-IsLive}
use sysprg.Wzip.Lines.{readlines-start, holding, flushed, flushed-encode}
use sysprg.Wzip.Files.{
  concat, last_or, Opens, Continues, lstch-push_all, proc-next, proc-last, flushed-append,
  flushed-nil, proc_loop-flushed, live-holding,
}

-- The scanner after the first file of a run of the program.
record First (c : ℕ) (cs : List ℕ) (k : ℕ) : Type 0 where
  out : List ℕ
  n : ℕ
  reads : readlines (c ∷ cs) [] null_token ≡ some (out, record { count = n; ch = last_or c cs })
  pushes : push_all cs (holding [] 1 c) ≡ holding out n (last_or c cs)
  counted : 0 < n
  held : 0 < last_or c cs
  room : n + k < 2 ^ 32

first :
    (c : ℕ) (cs : List ℕ) (k : ℕ) → NulFree (c ∷ cs) → length (c ∷ cs) + k < 2 ^ 32 → First c cs k
first c cs k nf h = record {
  out = s.out;
  n = s.tok.count;
  reads = rw (← ends) (readlines-start c cs [] nf.0 nf.1 (omega arith));
  pushes = rw (← ends) (live-holding k s live);
  counted = live.counted;
  held = rw (← ends) live.held;
  room = live.room;
}
  where
    s : Scan
    s = push_all cs (holding [] 1 c)

    live : IsLive k s
    live =
        push_all-IsLive k cs nf.1
          (record { counted = omega arith; held = nf.0; last = refl; room = omega arith })

    ends : s.tok.ch ≡ last_or c cs
    ends = sym live.last ∙ lstch-push_all cs (holding [] 1 c)

rle-flushed : (c : ℕ) (cs : List ℕ) → flushed cs (holding [] 1 c) ≡ encode (rle (c ∷ cs))
unfolding rle
rle-flushed c cs = flushed-encode cs (holding [] 1 c)

-- A file of one byte, read while a run is held.
readlines-byte :
    (b n a : ℕ) (out : List ℕ)
    → 0 < n
    → 0 < a
    → n + 1 < 2 ^ 32
    → readlines (b ∷ []) out (record { count = n; ch = a })
      ≡ some (out, record { count = n + 1; ch = a })
unfolding readlines
readlines-byte b n a out hn ha h = ground arith

flushed-byte :
    (a n : ℕ) (out : List ℕ)
    → flushed (a ∷ []) (holding out n a) ≡ out ++ print_token (record { count = n + 1; ch = a })
unfolding push_all
flushed-byte a n out =
    ap (λ (s : Scan). s.out ++ print_token s.tok) (push-same a (holding out n a) (==_refl a))

proc_loop-hangs :
    (fopen : List ℕ → Option (List ℕ)) (fuel : ℕ) (f : List ℕ) (names : List (List ℕ))
    → fopen f ≡ some []
    → proc_loop fopen fuel (f ∷ names) [] null_token ≡ none
unfolding proc_loop
proc_loop-hangs fopen zero f names e = refl
proc_loop-hangs fopen (suc fuel) f names e = ground (arith, proc_loop-hangs fopen fuel f names e)

module _ (fopen : List ℕ → Option (List ℕ)) where
  procfiles-rle :
      (fuel c : ℕ) (cs : List ℕ) (files : List (List ℕ)) (f : List ℕ) (names : List (List ℕ))
      → suc (length names) < fuel
      → Opens fopen (f ∷ names) ((c ∷ cs) ∷ files)
      → NulFree (c ∷ cs)
      → Continues (last_or c cs) files
      → length ((c ∷ cs) ++ concat files) < 2 ^ 32
      → procfiles fopen fuel (f ∷ names)
        ≡ some (record { status = 0; out = encode (rle ((c ∷ cs) ++ concat files)) })
  unfolding procfiles
  procfiles-rle zero c cs files f names le op nf co h = elim le [ ]
  procfiles-rle (suc zero) c cs files f names le op nf co h = absurd (omega arith)
  procfiles-rle (suc (suc fuel)) c cs [] f [] le op nf co h =
      proc-last fopen fuel f (c ∷ cs) [] st.out null_token _ op.0 st.reads st.counted
      ∙ ap (λ o. some (record { status = 0; out = o }))
          (sym (flushed-nil cs [] st.out 1 c st.n (last_or c cs) st.pushes)
            ∙ rle-flushed c (cs ++ []))
    where
      st : First c cs 0
      st = first c cs 0 nf (omega (arith, ap length (append-nil cs)))
  procfiles-rle (suc (suc fuel)) c cs (file ∷ files) f [] le op nf co h = elim op.1 [ ]
  procfiles-rle (suc (suc fuel)) c cs [] f (g ∷ names) le op nf co h = elim op.1 [ ]
  procfiles-rle (suc (suc fuel)) c cs (next ∷ files) f (g ∷ names) le op nf co h =
      proc-next fopen (suc fuel) f g names (c ∷ cs) [] st.out null_token _ op.0 st.reads st.counted
      ∙ proc_loop-flushed fopen (suc fuel) g names next files st.out st.n (last_or c cs)
          (omega arith) op.1 co st.counted st.held st.room
      ∙ ap (λ o. some (record { status = 0; out = o }))
          (sym (
              flushed-append cs (concat (next ∷ files)) [] st.out 1 c st.n (last_or c cs) st.pushes)
            ∙ rle-flushed c (cs ++ concat (next ∷ files)))
    where
      st : First c cs (length (concat (next ∷ files)))
      st =
          first c cs (length (concat (next ∷ files))) nf
            (omega (arith, length-append cs (concat (next ∷ files))))

  -- If no file holds a NUL byte, and each later file that is not empty begins with the last byte
  -- before it, then `main` ends within one round for each file and one more, with status 0, and has
  -- written the records of the maximal runs of the files' text. (The first file is not empty, and
  -- the text is shorter than 2 ^ 32 bytes.)
  pub main-rle :
      (fuel c : ℕ) (cs : List ℕ) (files : List (List ℕ)) (f : List ℕ) (names : List (List ℕ))
      → suc (length names) < fuel
      → Opens fopen (f ∷ names) ((c ∷ cs) ∷ files)
      → NulFree (c ∷ cs)
      → Continues (last_or c cs) files
      → length ((c ∷ cs) ++ concat files) < 2 ^ 32
      → main fopen fuel (f ∷ names)
        ≡ some (record { status = 0; out = encode (rle ((c ∷ cs) ++ concat files)) })
  unfolding main
  main-rle fuel c cs files f names le op nf co h =
      rw (procfiles-rle fuel c cs files f names le op nf co h, main)

  -- What `main` has written for such files is read back as five-byte records: their runs are
  -- maximal, and spelled out they are the files' text; the status is 0.
  pub main-decode :
      (fuel c : ℕ) (cs : List ℕ) (files : List (List ℕ)) (f : List ℕ) (names : List (List ℕ))
      → suc (length names) < fuel
      → Opens fopen (f ∷ names) ((c ∷ cs) ∷ files)
      → NulFree (c ∷ cs)
      → Continues (last_or c cs) files
      → length ((c ∷ cs) ++ concat files) < 2 ^ 32
      → (r : Exit) × (ts : List Token) × (main fopen fuel (f ∷ names) ≡ some r)
        × (r.status ≡ 0)
        × (decode r.out ≡ some ts)
        × IsMaximal ts
        × (expand ts ≡ (c ∷ cs) ++ concat files)
  main-decode fuel c cs files f names le op nf co h = (
    _,
    rle text,
    main-rle fuel c cs files f names le op nf co h,
    refl,
    decode-encode (rle text) (AllFit-rle text h),
    IsMaximal-rle text,
    expand-rle text,
  )
    where
      text : List ℕ
      text = (c ∷ cs) ++ concat files

  -- A first file that is empty is opened again and again: the loop of `procfiles` does not end.
  pub main-hangs :
      (fuel : ℕ) (f : List ℕ) (names : List (List ℕ))
      → fopen f ≡ some []
      → main fopen fuel (f ∷ names) ≡ none
  unfolding main procfiles
  main-hangs fuel f names e = rw (proc_loop-hangs fopen fuel f names e, main)

  -- A second file of one byte, whatever byte it is, is written as one more of the first file's last byte.
  main-loses_byte :
      (fuel b c : ℕ) (cs f g : List ℕ)
      → fopen f ≡ some (c ∷ cs)
      → fopen g ≡ some (b ∷ [])
      → NulFree (c ∷ cs)
      → length (c ∷ cs) + 1 < 2 ^ 32
      → main fopen (suc (suc (suc fuel))) (f ∷ g ∷ [])
        ≡ some (record { status = 0; out = encode (rle ((c ∷ cs) ++ last_or c cs ∷ [])) })
  unfolding main procfiles
  main-loses_byte fuel b c cs f g e e' nf h = rw (
    proc-next fopen (suc (suc fuel)) f g [] (c ∷ cs) [] st.out null_token _ e st.reads st.counted
        ∙ proc-last fopen fuel g (b ∷ []) st.out st.out _ _ e'
            (readlines-byte b st.n a st.out st.counted st.held st.room) (omega arith)
        ∙ ap (λ o. some (record { status = 0; out = o }))
            (sym (flushed-byte a st.n st.out)
              ∙ sym (flushed-append cs (a ∷ []) [] st.out 1 c st.n a st.pushes)
              ∙ rle-flushed c (cs ++ a ∷ [])),
    main,
  )
    where
      a : ℕ
      a = last_or c cs

      st : First c cs 1
      st = first c cs 1 nf h
