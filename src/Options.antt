-- ===== src/Options.antt =====
-- concurrency/threads-cv/main-common.c: the options of `main`, and its assertions.
--
-- `getopt` is not here: the list has the letter that each of its calls gives, with `optarg`, and a
-- letter that is no option stands for itself. `atoi` is a parameter.
pub mod Reading
mod Tests
use sysprg.Prelude.{
  ℕ, zero, suc, Bool, true, false, ◌&&◌, Option, none, some, List, [], ◌∷◌, ◌==◌, leb,
  if◌then◌else◌,
}
use sysprg.Prelude.Int.{ℤ, pos, negsuc}
use sysprg.Pauses.{max_threads}

pub record Settings : Type 0 where
  pub loops : ℤ
  pub max : ℤ
  pub producers : ℤ
  pub consumers : ℤ
  pub producer_pause_string : Option (List ℕ)
  pub consumer_pause_string : Option (List ℕ)
  pub do_trace : Bool
  pub do_timing : Bool

abbrev pub defaults : Settings
defaults = record {
  loops = pos 1;
  max = pos 1;
  producers = pos 1;
  consumers = pos 1;
  producer_pause_string = none;
  consumer_pause_string = none;
  do_trace = false;
  do_timing = false;
}

-- `assert(... > 0)`
abbrev pub is_positive : ℤ → Bool
is_positive (pos zero) = false
is_positive (pos (suc n)) = true
is_positive (negsuc n) = false

-- `assert(... <= MAX_THREADS)`
abbrev pub is_few : ℤ → Bool
is_few (pos n) = leb n max_threads
is_few (negsuc n) = true

-- The program goes on with the settings, ends in `usage`, or is aborted.
pub data Start : Type 0 where
  starts : Settings → Start
  usage : Start
  aborted : Start

abbrev pub and_then : Option Settings → (Settings → Option Settings) → Option Settings
and_then none next = none
and_then (some s) next = next s

module _ (atoi : List ℕ → ℤ) where
  -- The `switch`; `none` is `usage`.
  pub set_option : Settings → ℕ → List ℕ → Option Settings
  set_option s c optarg =
      if c == b'l'
      then some (record s { loops = atoi optarg })
      else if c == b'm'
      then some (record s { max = atoi optarg })
      else if c == b'p'
      then some (record s { producers = atoi optarg })
      else if c == b'c'
      then some (record s { consumers = atoi optarg })
      else if c == b'P'
      then some (record s { producer_pause_string = some optarg })
      else if c == b'C'
      then some (record s { consumer_pause_string = some optarg })
      else if c == b'v'
      then some (record s { do_trace = true })
      else if c == b't'
      then some (record s { do_timing = true })
      else none

  -- The loop over the calls of `getopt`.
  pub read_options : Settings → List (ℕ × List ℕ) → Option Settings
  unfolding set_option
  read_options s [] = some s
  read_options s ((c, optarg) ∷ gs) = and_then (set_option s c optarg) (λ s'. read_options s' gs)

  abbrev pub check : Settings → Start
  check s =
      if is_positive s.loops && is_positive s.max && is_few s.producers && is_few s.consumers
      then starts s
      else aborted

  abbrev pub begin_with : Option Settings → Start
  begin_with none = usage
  begin_with (some s) = check s

  -- `main` up to the assertions.
  unfoldable pub main_options : List (ℕ × List ℕ) → Start
  unfolding read_options
  main_options gs = begin_with (read_options defaults gs)
