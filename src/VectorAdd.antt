-- ===== src/VectorAdd.antt =====
-- concurrency/threads-bugs: `vector_add` in the ways of its programs, `worker` and the arguments
-- that `main` of main-common.c gives the threads.
--
-- A call of `vector_add` is the row of what it does to mutexes and values. A vector is named by its
-- index in `v`, which orders the addresses too; the mutex of `v[i]` has the number `i`, and `global`
-- comes after them. POSIX: a mutex is free or has an owner, and locking waits until it is free.
pub mod Owners
pub mod Progress
pub mod Guarded
pub mod Waiting
pub mod Meeting
pub mod Deadlock
pub mod Choices
pub mod Outcome
pub mod Trace
pub mod Values
mod Tests
use sysprg.Prelude.{
  ℕ, zero, suc, ◌+◌, ◌*◌, ◌%◌, ◌^◌, ◌<◌, ◌≡◌, Bool, true, false, Option, none, some, List, [], ◌∷◌,
  ◌++◌, get_or, set, replicate, update, ltb, ◌==◌, ◌&&◌, if◌then◌else◌,
}

abbrev pub vector_size : ℕ
vector_size = 100

abbrev pub max_threads : ℕ
max_threads = 100

-- `global` of vector-avoid-hold-and-wait.c
abbrev pub global : ℕ
global = 2 * max_threads

-- The values of the vectors, as 32-bit words.
abbrev pub Store : Type 0
Store = ℕ → List ℕ

-- `for (i = ...; i < VECTOR_SIZE; i++) v_dst->values[i] = v_dst->values[i] + v_src->values[i];`
-- with `n` rounds left. Source and destination may be one vector.
pub add_from : ℕ → ℕ → ℕ → ℕ → Store → Store
add_from dst src i zero v = v
add_from dst src i (suc n) v =
    add_from dst src (i + 1) n
      (update v dst (set (v dst) i ((get_or (v dst) i 0 + get_or (v src) i 0) % 2 ^ 32)))

unfoldable pub add_values : ℕ → ℕ → Store → Store
unfolding add_from
add_values dst src = add_from dst src 0 vector_size

pub data Action : Type 0 where
  lock : ℕ → Action
  unlock : ℕ → Action
  add : ℕ → ℕ → Action

-- vector-deadlock.c
unfoldable pub vector_add_deadlock : ℕ → ℕ → List Action
vector_add_deadlock dst src = lock dst ∷ lock src ∷ add dst src ∷ unlock dst ∷ unlock src ∷ []

-- vector-global-order.c
unfoldable pub vector_add_global_order : ℕ → ℕ → List Action
vector_add_global_order dst src =
    (if ltb dst src
      then lock dst ∷ lock src ∷ []
      else if ltb src dst
      then lock src ∷ lock dst ∷ []
      else lock src ∷ [])
    ++ add dst src ∷ unlock src ∷ (if dst == src then [] else unlock dst ∷ [])

-- vector-avoid-hold-and-wait.c
unfoldable pub vector_add_avoid_hold_and_wait : ℕ → ℕ → List Action
vector_add_avoid_hold_and_wait dst src =
    lock global ∷ lock dst ∷ lock src ∷ unlock global ∷ add dst src ∷ unlock dst ∷ unlock src ∷ []

-- `thread_arg_t`, without the id, which only the trace prints.
pub record ThreadArg : Type 0 where
  pub vector_add_order : Bool
  pub vector_0 : ℕ
  pub vector_1 : ℕ

-- The calls that `worker` makes, in `n` rounds of its loop.
pub worker : (ℕ → ℕ → List Action) → ThreadArg → ℕ → List Action
worker vector_add args zero = []
worker vector_add args (suc n) =
    (if args.vector_add_order
      then vector_add args.vector_1 args.vector_0
      else vector_add args.vector_0 args.vector_1)
    ++ worker vector_add args n

-- The command line: `-l`, `-n`, `-d`, `-p`.
pub record Config : Type 0 where
  pub loops : ℕ
  pub num_threads : ℕ
  pub cause_deadlock : Bool
  pub enable_parallelism : Bool

unfoldable pub thread_arg : Config → ℕ → ThreadArg
thread_arg cfg i = record {
  vector_add_order = cfg.cause_deadlock && i % 2 == 1;
  vector_0 = if cfg.enable_parallelism then i * 2 else 0;
  vector_1 = if cfg.enable_parallelism then i * 2 + 1 else 1;
}

-- `vector_init(&v[i], i)` for each vector
unfoldable pub vector_init : ℕ → List ℕ
vector_init value = replicate vector_size value

-- The owners of the mutexes, the values, and what each thread still has to do.
pub record System : Type 0 where
  pub owner : ℕ → Option ℕ
  pub values : Store
  pub rest : ℕ → List Action

module _ (vector_add : ℕ → ℕ → List Action) (cfg : Config) where
  unfoldable pub init : System
  unfolding worker thread_arg vector_init
  init = record {
    owner = λ l. none;
    values = vector_init;
    rest =
        λ i. if ltb i cfg.num_threads then worker vector_add (thread_arg cfg i) cfg.loops else [];
  }

-- A thread does the next thing in its row; a lock is taken only from nobody.
pub data Step (s : System) : System → Type 0 where
  do_lock :
      (id l : ℕ) (k : List Action)
      → s.rest id ≡ lock l ∷ k
      → s.owner l ≡ none
      → Step s (record s { owner = update s.owner l (some id); rest = update s.rest id k })
  do_unlock :
      (id l : ℕ) (k : List Action)
      → s.rest id ≡ unlock l ∷ k
      → Step s (record s { owner = update s.owner l none; rest = update s.rest id k })
  do_add :
      (id dst src : ℕ) (k : List Action)
      → s.rest id ≡ add dst src ∷ k
      → Step s (record s { values = add_values dst src s.values; rest = update s.rest id k })

pub data Steps (s : System) : System → Type 0 where
  here : Steps s s
  later : {t u : System} → Steps s t → Step t u → Steps s u
