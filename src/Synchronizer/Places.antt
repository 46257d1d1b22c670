-- ===== src/Synchronizer/Places.antt =====
-- main-signal-cv.c: the places at which the two threads can stand together fix the rest of the state.
use sysprg.Prelude.{
  ◌≡◌, refl, Bool, true, false, ◌&&◌, not, List, [], ◌∷◌, ◌++◌, arith, if◌then◌else◌,
}
use sysprg.Synchronizer.{
  Owner, nobody, by_main, by_worker, Line, first, last, MainPc, m_init, m_create, m_test, m_wait,
  m_asleep, m_unlock, m_print, m_end, WorkerPc, w_none, w_print, w_set, w_signal, w_unlock, w_end,
  System, start, Step, AnyStep, step, spurious, signal_init, create, main_lock, test_again,
  test_done, cond_wait, relock, main_unlock, print_last, print_first, worker_lock, set_done,
  cond_signal, worker_unlock,
}

-- The places at which `main` has the mutex.
abbrev pub m_holds : MainPc → Bool
m_holds m_test = true
m_holds m_wait = true
m_holds m_unlock = true
m_holds _ = false

abbrev pub w_holds : WorkerPc → Bool
w_holds w_set = true
w_holds w_signal = true
w_holds w_unlock = true
w_holds _ = false

-- The worker has set `done`.
abbrev pub has_set : WorkerPc → Bool
has_set w_signal = true
has_set w_unlock = true
has_set w_end = true
has_set _ = false

-- The worker has made its signal too.
abbrev pub has_signalled : WorkerPc → Bool
has_signalled w_unlock = true
has_signalled w_end = true
has_signalled _ = false

abbrev pub has_printed : WorkerPc → Bool
has_printed w_none = false
has_printed w_print = false
has_printed _ = true

abbrev owner_at : MainPc → WorkerPc → Owner
owner_at m w = if m_holds m then by_main else if w_holds w then by_worker else nobody

abbrev ended : MainPc → Bool
ended m_end = true
ended _ = false

abbrev printed_at : MainPc → WorkerPc → List Line
printed_at m w = (if ended m then last ∷ [] else []) ++ (if has_printed w then first ∷ [] else [])

abbrev is_none : WorkerPc → Bool
is_none w_none = true
is_none _ = false

-- The pairs of places that can occur: the worker is there from its creation on; `main` sleeps only
-- before the signal, and is past its loop only once `done` is set.
abbrev together : MainPc → WorkerPc → Bool
together m_init w = is_none w
together m_create w = is_none w
together m_wait w = not (is_none w) && not (has_set w)
together m_asleep w = not (is_none w) && not (has_signalled w)
together m_unlock w = has_set w
together m_print w = has_set w
together m_end w = has_set w
together _ w = not (is_none w)

pub record Inv (s : System) : Type 0 where
  pub apart : m_holds s.m && w_holds s.w ≡ false
  pub places : together s.m s.w ≡ true
  pub owned : s.owner ≡ owner_at s.m s.w
  pub flag : s.done ≡ (if has_set s.w then 1 else 0)
  pub lines : s.printed ≡ printed_at s.m s.w

pub start-Inv : Inv start
unfolding start
start-Inv = record { apart = refl; places = refl; owned = refl; flag = refl; lines = refl }

pub Step-Inv : (s t : System) → Step s t → Inv s → Inv t
Step-Inv s _ (signal_init e) inv = ground arith
Step-Inv s _ (create e) inv = ground arith
Step-Inv s _ (main_lock e o) inv = ground arith
Step-Inv s _ (test_again e d) inv = ground arith
Step-Inv s _ (test_done e d) inv = ground arith
Step-Inv s _ (cond_wait e) inv = ground arith
Step-Inv s _ (relock e o) inv = ground arith
Step-Inv s _ (main_unlock e) inv = ground arith
Step-Inv s _ (print_last e) inv = ground arith
Step-Inv s _ (print_first e) inv = ground arith
Step-Inv s _ (worker_lock e o) inv = ground arith
Step-Inv s _ (set_done e) inv = ground arith
Step-Inv s _ (cond_signal e) inv = ground arith
Step-Inv s _ (worker_unlock e) inv = ground arith

pub AnyStep-Inv : (s t : System) → AnyStep s t → Inv s → Inv t
AnyStep-Inv s t (step st) inv = Step-Inv s t st inv
AnyStep-Inv s _ (spurious e) inv = ground arith
