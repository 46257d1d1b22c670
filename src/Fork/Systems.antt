-- ===== src/Fork/Systems.antt =====
-- process_api: a parent and a child, one step at a time.
use sysprg.Prelude.{ℕ, ◌≡◌, Option, none, some, List, [], ◌∷◌, ◌++◌}
use sysprg.Fork.{Line, say, wait, exec, close_stdout, open_file, fork, Row, end, ◌⨾◌}

-- What descriptor 1 is.
pub data Target : Type 0 where
  screen : Target
  file : Target
  closed : Target

pub record Process : Type 0 where
  pub stdout : Target
  pub rest : Row

-- What was printed and what was written to the file, in order, and the two processes.
pub record System : Type 0 where
  pub shown : List Line
  pub saved : List Line
  pub parent : Process
  pub child : Process

-- Before the fork the child is a process with nothing to do.
abbrev pub start : Row → System
start row = record {
  shown = [];
  saved = [];
  parent = record { stdout = screen; rest = row };
  child = record { stdout = screen; rest = end };
}

-- A line as each of the two places has it.
abbrev pub to_screen : Target → Line → List Line
to_screen screen l = l ∷ []
to_screen file l = []
to_screen closed l = []

abbrev pub to_file : Target → Line → List Line
to_file screen l = []
to_file file l = l ∷ []
to_file closed l = []

-- `open` takes the lowest free descriptor: 1 if it is closed, and otherwise another.
abbrev pub opened : Target → Target
opened screen = screen
opened file = file
opened closed = file

-- The lines of another program.
abbrev pub say_all : List Line → Row
say_all [] = end
say_all (l ∷ ls) = say l ⨾ say_all ls

module _ (execvp : List (List ℕ) → Option (List Line)) where
  -- `execvp` replaces what is left to do, or fails and returns.
  abbrev pub exec_row : Option (List Line) → Row → Row
  exec_row none k = k
  exec_row (some ls) k = say_all ls

  -- What a process does by itself: the lines that it prints on the screen and in the file, and what
  -- becomes of it.
  pub data Own (pr : Process) : List Line → List Line → Process → Type 0 where
    does_say :
        (l : Line) (k : Row)
        → pr.rest ≡ say l ⨾ k
        → Own pr (to_screen pr.stdout l) (to_file pr.stdout l) (record pr { rest = k })
    does_exec :
        (command : List (List ℕ)) (k : Row)
        → pr.rest ≡ exec command ⨾ k
        → Own pr [] [] (record pr { rest = exec_row (execvp command) k })
    does_close :
        (k : Row) → pr.rest ≡ close_stdout ⨾ k → Own pr [] [] (record { stdout = closed; rest = k })
    does_open :
        (k : Row)
        → pr.rest ≡ open_file ⨾ k
        → Own pr [] [] (record { stdout = opened pr.stdout; rest = k })

  pub data Step (s : System) : System → Type 0 where
    by_parent :
        (a b : List Line) (pr : Process)
        → Own s.parent a b pr
        → Step s (record s { shown = s.shown ++ a; saved = s.saved ++ b; parent = pr })
    by_child :
        (a b : List Line) (pr : Process)
        → Own s.child a b pr
        → Step s (record s { shown = s.shown ++ a; saved = s.saved ++ b; child = pr })
    waits :
        (k : Row)
        → s.parent.rest ≡ wait ⨾ k
        → s.child.rest ≡ end
        → Step s (record s { parent = record s.parent { rest = k } })
    -- The child has the open files of its parent.
    forks :
        (row instead k : Row)
        → s.parent.rest ≡ fork row instead ⨾ k
        → Step s (record s {
          parent = record s.parent { rest = k };
          child = record { stdout = s.parent.stdout; rest = row };
        })
    fork_fails :
        (row instead k : Row)
        → s.parent.rest ≡ fork row instead ⨾ k
        → Step s (record s { parent = record s.parent { rest = instead } })
