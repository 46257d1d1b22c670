-- ===== src/Exercises.antt =====
-- concurrency/threads-sema/fork-join.c and rendezvous.c, as they stand without their semaphores, and
-- concurrency/threads-api/main-signal.c: programs whose threads print.
--
-- A thread is the row of what it does. Thread 0 is `main`; when it has returned, the process ends and
-- the other threads stop where they are. A thread that waits for another, or for `done`, stays where it is.
pub mod Outputs
pub mod Programs
mod Tests
use sysprg.Prelude.{
  ℕ, zero, suc, ◌+◌, Bool, true, false, Option, none, some, List, [], ◌∷◌, ◌++◌, ◌==◌, ◌≡◌,
  if◌then◌else◌, length,
}

pub data Line : Type 0 where
  parent_begin : Line
  parent_end : Line
  child : Line
  before_1 : Line
  after_1 : Line
  before_2 : Line
  after_2 : Line
  prints_first : Line
  prints_last : Line

pub data Thread : Type 0 where
  main : Thread
  first : Thread
  second : Thread

pub data Act : Type 0 where
  say : Line → Act
  create : Thread → Act
  join : Thread → Act
  set_done : Act
  await_done : Act
  return_0 : Act

-- What was printed, `done`, what each thread still has to do, and what it gets to do when it is
-- created.
pub record System : Type 0 where
  pub out : List Line
  pub done : Bool
  pub rest : Thread → List Act
  pub body : Thread → List Act

abbrev pub put : Thread → List Act → (Thread → List Act) → Thread → List Act
put main k rest main = k
put main k rest first = rest first
put main k rest second = rest second
put first k rest main = rest main
put first k rest first = k
put first k rest second = rest second
put second k rest main = rest main
put second k rest first = rest first
put second k rest second = k

abbrev pub ended : List Act → Bool
ended [] = true
ended (a ∷ k) = false

-- Thread `i` with its row; `none` if it has ended or waits.
unfoldable pub act : Thread → List Act → System → Option System
act i [] s = none
act i (say l ∷ k) s = some (record s { out = s.out ++ l ∷ []; rest = put i k s.rest })
act i (create j ∷ k) s = some (record s { rest = put j (s.body j) (put i k s.rest) })
act i (join j ∷ k) s = if ended (s.rest j) then some (record s { rest = put i k s.rest }) else none
act i (set_done ∷ k) s = some (record s { done = true; rest = put i k s.rest })
act i (return_0 ∷ k) s = some (record s { rest = put i k s.rest })
act i (await_done ∷ k) s = if s.done then some (record s { rest = put i k s.rest }) else none

unfoldable pub step : Thread → System → Option System
unfolding act
step i s = if ended (s.rest main) then none else act i (s.rest i) s

-- What the program has printed when `main` has returned.
pub data CanPrint : System → List Line → Type 0 where
  returns : (s : System) → ended (s.rest main) ≡ true → CanPrint s s.out
  goes :
      (s t : System) (o : List Line) (i : Thread) → step i s ≡ some t → CanPrint t o → CanPrint s o

abbrev pub no_act : Thread → List Act
no_act i = []

abbrev pub program : List Act → List Act → List Act → System
program in_main in_first in_second = record {
  out = [];
  done = false;
  rest = put main in_main no_act;
  body = put first in_first (put second in_second no_act);
}

unfoldable pub fork_join : System
fork_join =
    program (say parent_begin ∷ create first ∷ say parent_end ∷ return_0 ∷ []) (say child ∷ []) []

unfoldable pub rendezvous : System
rendezvous =
    program
      (say parent_begin
        ∷ create first
        ∷ create second
        ∷ join first
        ∷ join second
        ∷ say parent_end
        ∷ return_0
        ∷ [])
      (say before_1 ∷ say after_1 ∷ []) (say before_2 ∷ say after_2 ∷ [])

-- main-signal.c
unfoldable pub signal : System
signal =
    program (create first ∷ await_done ∷ say prints_last ∷ return_0 ∷ [])
      (say prints_first ∷ set_done ∷ []) []
