-- ===== src/Fork/Ending.antt =====
-- process_api: every program ends.
use sysprg.Prelude.{ℕ, ◌≡◌, refl, ap, ◌+◌, ◌≤◌, ◌<◌, Option, none, some, List, [], ◌∷◌, arith}
use sysprg.Prelude.Reach.{Reach, steps, steps_bounded}
use sysprg.Fork.{Line, say, wait, exec, close_stdout, open_file, fork, Row, end, then_do}
use sysprg.Fork.Systems.{
  Process, System, start, exec_row, Own, does_say, does_exec, does_close, does_open, Step,
  by_parent, by_child, waits, forks, fork_fails,
}

module _ (execvp : List (List ℕ) → Option (List Line)) where
  -- The steps after `execvp`, with `rest` for its return.
  abbrev pub exec_size : Option (List Line) → ℕ → ℕ
  exec_size none rest = rest
  exec_size (some []) rest = 0
  exec_size (some (l ∷ ls)) rest = exec_size (some ls) rest + 1

  -- The steps of a row, with those of the child that it makes.
  abbrev pub size : Row → ℕ
  size end = 0
  size (then_do (say l) k) = size k + 1
  size (then_do wait k) = size k + 1
  size (then_do (exec command) k) = exec_size (execvp command) (size k) + 1
  size (then_do close_stdout k) = size k + 1
  size (then_do open_file k) = size k + 1
  size (then_do (fork row instead) k) = size row + size instead + size k + 1

  abbrev left : System → ℕ
  left s = size s.parent.rest + size s.child.rest

  exec-size : (o : Option (List Line)) (k : Row) → size (exec_row execvp o k) ≡ exec_size o (size k)
  exec-size none k = refl
  exec-size (some []) k = refl
  exec-size (some (l ∷ ls)) k = ap (λ n. n + 1) (exec-size (some ls) k)

  Own-size :
      (pr pr' : Process) (a b : List Line) → Own execvp pr a b pr' → size pr'.rest < size pr.rest
  Own-size pr pr' a b (does_say l k e) = rw (e) (omega arith)
  Own-size pr pr' a b (does_exec command k e) = rw (e, exec-size (execvp command) k) (omega arith)
  Own-size pr pr' a b (does_close k e) = rw (e) (omega arith)
  Own-size pr pr' a b (does_open k e) = rw (e) (omega arith)

  Step-left : (s t : System) → Step execvp s t → left t < left s
  Step-left s _ (by_parent a b pr st) = omega (arith, Own-size s.parent pr a b st)
  Step-left s _ (by_child a b pr st) = omega (arith, Own-size s.child pr a b st)
  Step-left s _ (waits k e ce) = rw (e) (omega arith)
  Step-left s _ (forks row instead k e) = rw (e) (omega arith)
  Step-left s _ (fork_fails row instead k e) = rw (e) (omega arith)

  -- No run of a program is longer than its row with the row of its child, where a program that is
  -- run in its place counts with one step for each of its lines.
  pub every_run_ends :
      (row : Row) (s : System) (r : Reach (Step execvp) (start row) s)
      → steps (Step execvp) r ≤ size row
  every_run_ends row s r = omega (
    arith,
    steps_bounded (Step execvp) (λ t. Unit) left (λ t u st p. tt) (λ t u st p. Step-left t u st) tt
        r,
  )
