-- ===== src/VectorAdd/Choices.antt =====
-- threads-bugs/main-common.c: the options of `main`, its assertion, and what they make of a run.
--
-- The list has the letter that each call of `getopt` gives, with `optarg`, and a letter that is no
-- option stands for itself. `atoi` is a parameter.
use sysprg.Prelude.{
  ℕ, Bool, true, false, Option, none, some, List, [], ◌∷◌, ◌==◌, ltb, if◌then◌else◌,
}
use sysprg.Prelude.Int.{ℤ, pos, negsuc, pos_part}
use sysprg.VectorAdd.{Config, max_threads}

-- The globals of main-header.h.
pub record RunSettings : Type 0 where
  pub loops : ℤ
  pub verbose : Bool
  pub num_threads : ℤ
  pub do_timing : Bool
  pub cause_deadlock : Bool
  pub enable_parallelism : Bool

abbrev pub run_defaults : RunSettings
run_defaults = record {
  loops = pos 1;
  verbose = false;
  num_threads = pos 2;
  do_timing = false;
  cause_deadlock = false;
  enable_parallelism = false;
}

-- `assert(num_threads < MAX_THREADS)`
abbrev pub few_threads : ℤ → Bool
few_threads (pos n) = ltb n max_threads
few_threads (negsuc n) = true

-- The program goes on with the settings, ends in `usage`, or is aborted.
pub data Begun : Type 0 where
  runs : RunSettings → Begun
  usage_exit : Begun
  assert_fails : Begun

abbrev pub then_switch :
    Option RunSettings → (RunSettings → Option RunSettings) → Option RunSettings
then_switch none next = none
then_switch (some s) next = next s

-- What the threads run with: no rounds or threads if the number is negative.
abbrev pub config : RunSettings → Config
config s = record {
  loops = pos_part s.loops;
  num_threads = pos_part s.num_threads;
  cause_deadlock = s.cause_deadlock;
  enable_parallelism = s.enable_parallelism;
}

abbrev pub begin_run : Option RunSettings → Begun
begin_run none = usage_exit
begin_run (some s) = if few_threads s.num_threads then runs s else assert_fails

module _ (atoi : List ℕ → ℤ) where
  -- The `switch`; `none` is `usage`.
  unfoldable pub switch_option : RunSettings → ℕ → List ℕ → Option RunSettings
  switch_option s c optarg =
      if c == b'l'
      then some (record s { loops = atoi optarg })
      else if c == b'n'
      then some (record s { num_threads = atoi optarg })
      else if c == b'v'
      then some (record s { verbose = true })
      else if c == b't'
      then some (record s { do_timing = true })
      else if c == b'd'
      then some (record s { cause_deadlock = true })
      else if c == b'p'
      then some (record s { enable_parallelism = true })
      else none

  -- The loop over the calls of `getopt`.
  unfoldable pub getopt_loop : RunSettings → List (ℕ × List ℕ) → Option RunSettings
  unfolding switch_option
  getopt_loop s [] = some s
  getopt_loop s ((c, optarg) ∷ gs) =
      then_switch (switch_option s c optarg) (λ s'. getopt_loop s' gs)

  -- `main` up to the assertion.
  unfoldable pub main_run : List (ℕ × List ℕ) → Begun
  unfolding getopt_loop
  main_run gs = begin_run (getopt_loop run_defaults gs)
