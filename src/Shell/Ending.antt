-- ===== src/Shell/Ending.antt =====
-- The shell: how its processes end.
use sysprg.Prelude.{
  ℕ, suc, ◌+◌, ◌*◌, ◌≡◌, refl, ◌∙◌, ◌⊎◌, inl, inr, true, Option, none, some, List, [], ◌∷◌, ◌++◌,
  ◌==◌, Bool-cases, arith,
}
use sysprg.Prelude.Text.{codes}
use sysprg.Shell.Arguments.{interactive_faults}
use sysprg.Shell.Program.{
  exit_failure, exit_success, faults, Event, prints, errs, ends, World, path, read_command,
  run_mode, with_child, indexpath, main,
}

-- How many processes come to the end of `main`.
pub successes : List Event → ℕ
successes [] = 0
successes (prints t ∷ es) = successes es
successes (errs t ∷ es) = successes es
successes (ends exit_failure ∷ es) = successes es
successes (ends exit_success ∷ es) = suc (successes es)
successes (ends faults ∷ es) = successes es

-- How many processes fault.
pub faulted : List Event → ℕ
faulted [] = 0
faulted (prints t ∷ es) = faulted es
faulted (errs t ∷ es) = faulted es
faulted (ends exit_failure ∷ es) = faulted es
faulted (ends exit_success ∷ es) = faulted es
faulted (ends faults ∷ es) = suc (faulted es)

successes-append : (es fs : List Event) → successes (es ++ fs) ≡ successes es + successes fs
unfolding successes
successes-append [] fs = omega arith
successes-append (prints t ∷ es) fs = successes-append es fs
successes-append (errs t ∷ es) fs = successes-append es fs
successes-append (ends exit_failure ∷ es) fs = successes-append es fs
successes-append (ends exit_success ∷ es) fs = omega (arith, successes-append es fs)
successes-append (ends faults ∷ es) fs = successes-append es fs

faulted-append : (es fs : List Event) → faulted (es ++ fs) ≡ faulted es + faulted fs
unfolding faulted
faulted-append [] fs = omega arith
faulted-append (prints t ∷ es) fs = faulted-append es fs
faulted-append (errs t ∷ es) fs = faulted-append es fs
faulted-append (ends exit_failure ∷ es) fs = faulted-append es fs
faulted-append (ends exit_success ∷ es) fs = faulted-append es fs
faulted-append (ends faults ∷ es) fs = omega (arith, faulted-append es fs)

-- Every call of `getline` reads a line.
abbrev pub AllRead : World → Type 0
AllRead w = (n : ℕ) → (line : List ℕ) × (w.lines n ≡ some line)

-- What comes next ends with no success and with `n` faults, where all forks succeed.
record Fails (n : ℕ) (w : World) (r : List Event × World) : Type 0 where
  no_success : successes r.0 ≡ 0
  faults_are : ((k : ℕ) → w.forks k ≡ true) → (faulted r.0 ≡ n) × ((k : ℕ) → r.1.forks k ≡ true)
  reads : AllRead r.1

run_mode-Fails : (argc : ℕ) (w : World) → AllRead w → Fails 1 w (run_mode argc w)
unfolding run_mode read_command successes faulted
run_mode-Fails argc w read = elim (Bool-cases (argc == 2)) [
  | inl e ↦ rw e (record { no_success = refl; faults_are = λ all. (refl, all); reads = read })
  | inr e ↦
      let (line, l) = read 0 in
      rw (e, l, interactive_faults line)
        (record { no_success = refl; faults_are = λ all. (refl, all); reads = λ n. read (suc n) })
]

module _ (execvp : List (List ℕ) → Option (List ℕ)) where
  -- The processes that come to read a command: each `ls` that cannot be run doubles them.
  unfoldable pub shells : List (List ℕ) → ℕ
  shells [] = 1
  shells (dirname ∷ names) =
      let rest = shells names in
      elim (execvp (codes "ls" ∷ codes "-1" ∷ dirname ∷ [])) [
        | none ↦ 2 * rest
        | some listing ↦ rest
      ]

  with_child-Fails :
      (n : ℕ) (o : Option (List ℕ)) (next : World → List Event × World)
      → ((w : World) → AllRead w → Fails n w (next w))
      → (w : World) → AllRead w
      → Fails (elim o [ none ↦ 2 * n | some listing ↦ n ]) w (with_child execvp o next w)
  unfolding successes faulted
  with_child-Fails n (some listing) next each w read =
      let f = each w read in
      record { no_success = f.no_success; faults_are = f.faults_are; reads = f.reads }
  with_child-Fails n none next each w read =
      let f = each w read in
      let g = each (next w).1 f.reads in
      record {
        no_success = successes-append (next w).0 _ ∙ omega (arith, f.no_success, g.no_success);
        faults_are = λ all.
            let (fn, all1) = f.faults_are all in
            let (gn, all2) = g.faults_are all1 in
            (faulted-append (next w).0 _ ∙ omega (arith, fn, gn), all2);
        reads = g.reads;
      }

  indexpath-Fails :
      (names : List (List ℕ)) (next : World → List Event × World)
      → ((w : World) → AllRead w → Fails 1 w (next w))
      → (w : World) → AllRead w
      → Fails (shells names) w (indexpath execvp names next w)
  unfolding indexpath shells successes faulted
  indexpath-Fails [] next each w read = each w read
  indexpath-Fails (dirname ∷ names) next each w read = elim (Bool-cases (w.forks 0)) [
    | inr off ↦
        rw off
          (record { no_success = refl; faults_are = λ all. let on = all 0 in cc; reads = read })
    | inl on ↦ rw on (
        let f =
          with_child-Fails (shells names) (execvp (codes "ls" ∷ codes "-1" ∷ dirname ∷ []))
            (indexpath execvp names next) (indexpath-Fails names next each)
            (record w { forks = λ n. w.forks (suc n) }) read in
        record {
          no_success = f.no_success;
          faults_are = λ all. f.faults_are (λ k. all (suc k));
          reads = f.reads;
        })
  ]

  main-Fails :
      (argc : ℕ) (w : World)
      → (argc ≡ 1) ⊎ (argc ≡ 2)
      → AllRead w
      → Fails (shells path) w (main execvp argc w)
  unfolding main
  main-Fails argc w (inl e) read =
      rw e (indexpath-Fails path (run_mode 1) (run_mode-Fails 1) w read)
  main-Fails argc w (inr e) read =
      rw e (indexpath-Fails path (run_mode 2) (run_mode-Fails 2) w read)

  -- If there is a line for each call of `getline` and all forks succeed, then in either mode no
  -- process of the shell comes to the end of `main`, and as many as there are shells end with a fault:
  -- one, doubled for each directory for which `ls` could not be run.
  pub shells_fault :
      (argc : ℕ) (w : World)
      → (argc ≡ 1) ⊎ (argc ≡ 2)
      → AllRead w
      → ((k : ℕ) → w.forks k ≡ true)
      → (successes (main execvp argc w).0 ≡ 0) × (faulted (main execvp argc w).0 ≡ shells path)
  shells_fault argc w mode read all =
      let f = main-Fails argc w mode read in (f.no_success, (f.faults_are all).0)
