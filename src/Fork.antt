-- ===== src/Fork.antt =====
-- process_api: programs that make a child with `fork`, wait for it or not, and run others with `execvp`
-- (callingfork.c, callingforkandwait.c, callexec.c, callfork2.c, redirection.c and fkfile.c).
--
-- A program is the row of what a process does, with two more rows at the one `fork`: what its child
-- does, and what it does itself if the call fails ("fork failed" goes to stderr). `p` and `c` are
-- the numbers of parent and child. Standard output is a terminal, or the file opened in its place:
-- descriptors 0 and 2 are open, so that `open` gives descriptor 1 if that is closed. What
-- another program prints is the parameter `execvp`: its lines, or `none` if it cannot be run.
pub mod Systems
pub mod Printed
pub mod Waiting
pub mod Ending
pub mod Orders
pub mod Hello
pub mod Programs
mod Tests
use sysprg.Prelude.{ℕ, ◌+◌, List, [], ◌∷◌, ◌++◌, ◌==◌, if◌then◌else◌}
use sysprg.Prelude.Text.{codes}

-- The lines that the programs print, with the numbers in them.
pub data Line : Type 0 where
  child_x : ℕ → ℕ → Line
  parent_x : ℕ → ℕ → ℕ → Line
  hello_world : ℕ → Line
  i_am_child : ℕ → Line
  i_am_parent : ℕ → ℕ → Line
  i_waited : ℕ → ℕ → ℕ → Line
  rc_is : ℕ → Line
  rc_is_minus_1 : Line
  initpid_is : ℕ → Line
  says_hello : ℕ → Line
  says_goodbye : ℕ → Line
  not_reached : Line  -- "this shouldn't print out"
  of_program : List ℕ → Line

mutual
  pub data Action : Type 0 where
    say : Line → Action
    wait : Action
    exec : List (List ℕ) → Action
    close_stdout : Action
    open_file : Action
    fork : Row → Row → Action

  pub data Row : Type 0 where
    end : Row
    then_do : Action → Row → Row

infixr 67 ◌⨾◌
pattern abbrev pub ◌⨾◌ : Action → Row → Row
a ⨾ k = then_do a k

-- callingfork.c; `x` is 100 before the fork.
unfoldable pub callingfork : ℕ → ℕ → Row
callingfork p c = fork (say (child_x 900 c) ⨾ end) end ⨾ say (parent_x c 700 p) ⨾ end

unfoldable pub callingforkandwait : ℕ → ℕ → Row
callingforkandwait p c =
    say (hello_world p) ⨾ fork (say (i_am_child c) ⨾ end) end ⨾ wait ⨾ say (i_am_parent c p) ⨾ end

unfoldable pub callexec : ℕ → ℕ → Row
callexec p c =
    say (hello_world p)
    ⨾ fork
        (say (i_am_child c) ⨾ exec (codes "wc" ∷ codes "callexec.c" ∷ []) ⨾ say not_reached ⨾ end)
        end
    ⨾ wait
    ⨾ say (i_waited c c p)
    ⨾ end

-- callfork2.c after `fork`, for a process that has the number `pid`.
unfoldable pub after_fork : ℕ → ℕ → ℕ → Row
after_fork initpid rc pid =
    say (rc_is rc)
    ⨾ say (initpid_is initpid)
    ⨾ (if rc == initpid + 1 then say (says_hello pid) ⨾ end else say (says_goodbye pid) ⨾ end)

unfoldable pub callfork2 : ℕ → ℕ → Row
unfolding after_fork
callfork2 p c =
    fork (after_fork p 0 c) (say rc_is_minus_1 ⨾ say (initpid_is p) ⨾ end) ⨾ after_fork p c p

unfoldable pub redirection : ℕ → ℕ → Row
redirection p c =
    fork
      (close_stdout
        ⨾ open_file
        ⨾ exec (codes "wc" ∷ codes "redirection.c" ∷ [])
        ⨾ say not_reached
        ⨾ end)
      end
    ⨾ wait
    ⨾ end

unfoldable pub fkfile : ℕ → ℕ → Row
fkfile p c =
    close_stdout
    ⨾ open_file
    ⨾ fork (exec (codes "wc" ∷ codes "fkfile.c" ∷ []) ⨾ say not_reached ⨾ end) end
    ⨾ exec (codes "ls" ∷ codes ".." ∷ [])
    ⨾ end
