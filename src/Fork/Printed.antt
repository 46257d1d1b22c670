-- ===== src/Fork/Printed.antt =====
-- process_api: the lines that a process without `fork` and `wait` has still to print.
use mathlib.Core.Path.{subst}
use sysprg.Prelude.{
  ℕ, ◌≡◌, refl, sym, ap, ◌∙◌, ◌⊎◌, inl, inr, Option, none, some, List, [], ◌∷◌, ◌++◌, append-nil,
}
use sysprg.Fork.{Line, say, wait, exec, close_stdout, open_file, fork, Row, end, then_do, ◌⨾◌}
use sysprg.Fork.Systems.{
  Target, closed, Process, to_screen, to_file, opened, say_all, exec_row, Own, does_say, does_exec,
  does_close, does_open,
}

-- No fork and no wait.
abbrev pub IsPlain : Row → Type 0
IsPlain end = Unit
IsPlain (then_do (say l) k) = IsPlain k
IsPlain (then_do wait k) = ⊥
IsPlain (then_do (exec command) k) = IsPlain k
IsPlain (then_do close_stdout k) = IsPlain k
IsPlain (then_do open_file k) = IsPlain k
IsPlain (then_do (fork row instead) k) = ⊥

module _ (execvp : List (List ℕ) → Option (List Line)) where
  -- The lines of another program in one of the two places.
  abbrev pub all_lines : (Target → Line → List Line) → Target → List Line → List Line
  all_lines place t [] = []
  all_lines place t (l ∷ ls) = place t l ++ all_lines place t ls

  -- What follows `execvp`, with `rest` for its return.
  abbrev pub exec_lines :
      (Target → Line → List Line) → Target → Option (List Line) → List Line → List Line
  exec_lines place t none rest = rest
  exec_lines place t (some ls) rest = all_lines place t ls

  -- The lines that a plain row puts in one of the two places, with standard output `t`.
  abbrev pub lines : (Target → Line → List Line) → Target → Row → List Line
  lines place t end = []
  lines place t (then_do (say l) k) = place t l ++ lines place t k
  lines place t (then_do wait k) = lines place t k
  lines place t (then_do (exec command) k) = exec_lines place t (execvp command) (lines place t k)
  lines place t (then_do close_stdout k) = lines place closed k
  lines place t (then_do open_file k) = lines place (opened t) k
  lines place t (then_do (fork row instead) k) = lines place t k

  lines-say_all :
      (place : Target → Line → List Line) (t : Target) (ls : List Line)
      → lines place t (say_all ls) ≡ all_lines place t ls
  lines-say_all place t [] = refl
  lines-say_all place t (l ∷ ls) = ap (λ xs. place t l ++ xs) (lines-say_all place t ls)

  say_all-IsPlain : (ls : List Line) → IsPlain (say_all ls)
  say_all-IsPlain [] = tt
  say_all-IsPlain (l ∷ ls) = say_all-IsPlain ls

  -- What a process with a plain row prints is what it prints now and what it prints later.
  pub record Prints (pr : Process) (a b : List Line) (pr' : Process) : Type 0 where
    pub on_screen : lines to_screen pr.stdout pr.rest ≡ a ++ lines to_screen pr'.stdout pr'.rest
    pub in_file : lines to_file pr.stdout pr.rest ≡ b ++ lines to_file pr'.stdout pr'.rest
    pub plain : IsPlain pr'.rest

  exec-lines :
      (place : Target → Line → List Line) (t : Target) (o : Option (List Line)) (k : Row)
      → lines place t (exec_row execvp o k) ≡ exec_lines place t o (lines place t k)
  exec-lines place t none k = refl
  exec-lines place t (some ls) k = lines-say_all place t ls

  exec_row-IsPlain : (o : Option (List Line)) (k : Row) → IsPlain k → IsPlain (exec_row execvp o k)
  exec_row-IsPlain none k h = h
  exec_row-IsPlain (some ls) k h = say_all-IsPlain ls

  pub Own-Prints :
      (pr pr' : Process) (a b : List Line)
      → IsPlain pr.rest
      → Own execvp pr a b pr'
      → Prints pr a b pr'
  Own-Prints pr pr' a b h (does_say l k e) = record {
    on_screen = rw (e) refl;
    in_file = rw (e) refl;
    plain = subst IsPlain e h;
  }
  Own-Prints pr pr' a b h (does_exec command k e) = record {
    on_screen = rw (e) (sym (exec-lines to_screen pr.stdout (execvp command) k));
    in_file = rw (e) (sym (exec-lines to_file pr.stdout (execvp command) k));
    plain = exec_row-IsPlain (execvp command) k (subst IsPlain e h);
  }
  Own-Prints pr pr' a b h (does_close k e) = record {
    on_screen = rw (e) refl;
    in_file = rw (e) refl;
    plain = subst IsPlain e h;
  }
  Own-Prints pr pr' a b h (does_open k e) = record {
    on_screen = rw (e) refl;
    in_file = rw (e) refl;
    plain = subst IsPlain e h;
  }

  -- What the action in front is not.
  pub Own-end : (pr pr' : Process) (a b : List Line) → pr.rest ≡ end → Own execvp pr a b pr' → ⊥
  Own-end pr pr' a b h (does_say l k e) = cc
  Own-end pr pr' a b h (does_exec command k e) = cc
  Own-end pr pr' a b h (does_close k e) = cc
  Own-end pr pr' a b h (does_open k e) = cc

  pub Own-wait :
      (pr pr' : Process) (a b : List Line) (r : Row)
      → pr.rest ≡ wait ⨾ r
      → Own execvp pr a b pr'
      → ⊥
  Own-wait pr pr' a b r h (does_say l k e) = cc
  Own-wait pr pr' a b r h (does_exec command k e) = cc
  Own-wait pr pr' a b r h (does_close k e) = cc
  Own-wait pr pr' a b r h (does_open k e) = cc

  pub Own-fork :
      (pr pr' : Process) (a b : List Line) (row instead r : Row)
      → pr.rest ≡ fork row instead ⨾ r
      → Own execvp pr a b pr'
      → ⊥
  Own-fork pr pr' a b row instead r h (does_say l k e) = cc
  Own-fork pr pr' a b row instead r h (does_exec command k e) = cc
  Own-fork pr pr' a b row instead r h (does_close k e) = cc
  Own-fork pr pr' a b row instead r h (does_open k e) = cc

  -- A process that has ended adds nothing.
  pub no_more :
      (place : Target → Line → List Line) (t : Target) (r : Row) (xs goal : List Line)
      → r ≡ end
      → xs ++ lines place t r ≡ goal
      → xs ≡ goal
  no_more place t r xs goal e h = sym (append-nil xs) ∙ ap (λ q. xs ++ lines place t q) (sym e) ∙ h

  -- A process with a plain row has ended or has something to do.
  pub plain-Own :
      (pr : Process) (row : Row)
      → pr.rest ≡ row
      → IsPlain row
      → (row ≡ end) ⊎ ((a : List Line) × (b : List Line) × (pr' : Process) × Own execvp pr a b pr')
  plain-Own pr end e h = inl refl
  plain-Own pr (then_do (say l) k) e h = inr (_, _, _, does_say l k e)
  plain-Own pr (then_do wait k) e h = absurd h
  plain-Own pr (then_do (exec command) k) e h = inr (_, _, _, does_exec command k e)
  plain-Own pr (then_do close_stdout k) e h = inr (_, _, _, does_close k e)
  plain-Own pr (then_do open_file k) e h = inr (_, _, _, does_open k e)
  plain-Own pr (then_do (fork row instead) k) e h = absurd h
