-- ===== src/Shell/Program.antt =====
-- ostep-projects/process-shell/src/main.c, from its start: the usage, `indexpath`, the two modes.
--
-- A process that forks waits for its child before it goes on, so that all they do is one sequence.
-- The numbers of processes in what is printed are left out; `signal` sets a flag that is not read.
-- Where `execvp` returns, the child goes on with the loop of `indexpath`, and then with `main`.
use sysprg.Prelude.{
  ℕ, suc, Bool, Option, none, some, List, [], ◌∷◌, ◌++◌, ◌==◌, ◌||◌, if◌then◌else◌,
}
use sysprg.Prelude.Text.{codes}
use sysprg.Shell.{Args, args, fault, interactive}

pub data End : Type 0 where
  exit_failure : End
  exit_success : End
  faults : End

-- What a process prints, in order, and how each process ends that ran no other program.
pub data Event : Type 0 where
  prints : List ℕ → Event
  errs : List ℕ → Event
  ends : End → Event

-- What the calls of `fork` give from now on (whether there is a child), and to what the calls of
-- `getline` set `line`: `none` where one leaves NULL.
pub record World : Type 0 where
  pub forks : ℕ → Bool
  pub lines : ℕ → Option (List ℕ)

abbrev pub forked : World → World
forked w = record w { forks = λ n. w.forks (suc n) }

abbrev pub was_read : World → World
was_read w = record w { lines = λ n. w.lines (suc n) }

-- `path`
abbrev pub path : List (List ℕ)
path = codes "/usr/bin/" ∷ codes "/home/adam/.local/bin/" ∷ codes "/usr/bin" ∷ codes "/bin" ∷ []

-- The loop that prints the arguments, and the end of `main`.
abbrev pub print_args : List (List ℕ) → List Event
print_args [] = ends exit_success ∷ []
print_args (a ∷ given) = prints a ∷ print_args given

abbrev pub show_args : Args → List Event
show_args (args given) = print_args given
show_args fault = ends faults ∷ []

-- The interactive mode on what `getline` left in `line`; no token is in NULL.
unfoldable pub read_command : Option (List ℕ) → List Event
read_command none = print_args []
read_command (some line) = show_args (interactive line)

-- `main` after `indexpath`. With two arguments it reads the pointer `args[1]`, which is past the
-- block of one.
unfoldable pub run_mode : ℕ → World → List Event × World
unfolding read_command
run_mode argc w =
    if argc == 2
    then (ends faults ∷ [], w)
    else (prints (codes "wish>") ∷ read_command (w.lines 0), was_read w)

module _ (execvp : List (List ℕ) → Option (List ℕ)) where
  abbrev pub hello_parent : Event
  hello_parent = prints (codes "hello, I am parent")

  -- The parent and its child: the child runs `ls`, or goes on; the parent waits, and goes on.
  abbrev pub with_child :
      Option (List ℕ) → (World → List Event × World) → World → List Event × World
  with_child (some listing) next w =
      let (after, w') = next w in (prints listing ∷ hello_parent ∷ after, w')
  with_child none next w =
      let (of_child, w1) = next w in
      let (after, w2) = next w1 in (of_child ++ hello_parent ∷ after, w2)

  -- The loop of `indexpath` over the names, and what follows it.
  unfoldable pub indexpath :
      List (List ℕ) → (World → List Event × World) → World → List Event × World
  indexpath [] next w = next w
  indexpath (dirname ∷ names) next w =
      let on =
        with_child (execvp (codes "ls" ∷ codes "-1" ∷ dirname ∷ [])) (indexpath names next)
          (forked w) in
      if w.forks 0 then on else (errs (codes "Indexing error\n") ∷ ends exit_failure ∷ [], forked w)

  unfoldable pub main : ℕ → World → List Event × World
  unfolding indexpath run_mode
  main argc w =
      if argc == 1 || argc == 2
      then indexpath path (run_mode argc) w
      else (prints (codes "Usage: ./wish\n   or: ./wish <batchfile>\n") ∷ ends exit_failure ∷ [], w)
