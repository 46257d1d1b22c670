-- ===== src/TwoMutexes.antt =====
-- concurrency/threads-api/main-deadlock.c and main-deadlock-global.c: two threads that lock two mutexes
-- in opposite orders. What a thread does is a row of actions, as for threads-bugs.
mod Deadlock
mod Tests
use sysprg.Prelude.{ℕ, Option, none, List, [], ◌∷◌, ◌++◌, ltb, ◌==◌, if◌then◌else◌}
use sysprg.VectorAdd.{Action, lock, unlock, System}

abbrev pub m1 : ℕ
m1 = 0

abbrev pub m2 : ℕ
m2 = 1

-- `g` of main-deadlock-global.c
abbrev pub g : ℕ
g = 2

-- `worker` of main-deadlock.c
unfoldable pub worker : ℕ → List Action
worker arg =
    (if arg == 0 then lock m1 ∷ lock m2 ∷ [] else lock m2 ∷ lock m1 ∷ [])
    ++ unlock m1 ∷ unlock m2 ∷ []

-- `worker` of main-deadlock-global.c
unfoldable pub worker_global : ℕ → List Action
worker_global arg =
    (lock g ∷ (if arg == 0 then lock m1 ∷ lock m2 ∷ [] else lock m2 ∷ lock m1 ∷ []))
    ++ unlock m1 ∷ unlock m2 ∷ unlock g ∷ []

-- `main`: the threads with the arguments 0 and 1, for either of the workers.
unfoldable pub start : (ℕ → List Action) → System
start worker = record {
  owner = λ l. none;
  values = λ v. [];
  rest = λ i. if ltb i 2 then worker i else [];
}
