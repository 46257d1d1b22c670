-- ===== src/Pauses/Trace.antt =====
-- main-header.h: `do_print_headers`, `do_eos` and `do_pause`. The "%d" of `printf` is a parameter.
use sysprg.Prelude.{
  ℕ, zero, suc, ◌+◌, ◌-◌, ◌≡◌, refl, Bool, false, List, [], ◌∷◌, ◌++◌, if◌then◌else◌, get_or,
}
use sysprg.Prelude.Text.{codes}
use sysprg.Prelude.Int.{ℤ, pos}
use sysprg.Buffer.{Shared, make_buffer}
use sysprg.Pauses.{do_print_buffer}

-- `n` times the same text
abbrev repeat : ℕ → List ℕ → List ℕ
repeat zero text = []
repeat (suc n) text = text ++ repeat n text

-- A letter and a number for each thread, from number `i` on
abbrev names : (ℕ → List ℕ) → List ℕ → ℕ → ℕ → List ℕ
names printf_d letter i zero = []
names printf_d letter i (suc n) =
    letter ++ printf_d i ++ codes " " ++ names printf_d letter (i + 1) n

abbrev do_print_headers : (ℕ → List ℕ) → Bool → ℕ → ℕ → ℕ → List ℕ
do_print_headers printf_d do_trace max producers consumers =
    if do_trace
    then codes " NF "
      ++ repeat max (codes "     ")
      ++ codes "  "
      ++ names printf_d (codes "P") 0 producers
      ++ names printf_d (codes "C") 0 consumers
      ++ 10 ∷ []
    else []

abbrev do_eos : (ℤ → List ℕ) → Bool → Shared → List ℕ
do_eos printf3 do_trace s =
    if do_trace
    then do_print_buffer printf3 s ++ codes "[main: added end-of-stream marker]" ++ 10 ∷ []
    else []

-- What `do_pause` prints for the thread, and how long it sleeps then.
abbrev do_pause :
    (ℤ → List ℕ)
    → Bool
    → Shared
    → ℕ
    → List (List ℤ)
    → List (List ℤ)
    → ℕ
    → Bool
    → ℕ
    → List ℕ
    → List ℕ × ℤ
do_pause printf3 do_trace s producers producer_pause_times consumer_pause_times thread_id
      is_producer pause_slot str =
    (
      if do_trace
          then do_print_buffer printf3 s ++ repeat thread_id (codes "   ") ++ str ++ 10 ∷ []
          else [],
      if is_producer
          then get_or (get_or producer_pause_times thread_id []) pause_slot (pos 0)
          else get_or (get_or consumer_pause_times (thread_id - producers) []) pause_slot (pos 0),
    )

-- The first consumer after two producers sleeps as the first row of the consumers says.
first_consumer :
    (do_pause
      (λ n. [])
      false
      (make_buffer 1)
      2
      []
      ((pos 4 ∷ pos 5 ∷ []) ∷ [])
      2
      false
      1
      (codes "c1")).1
    ≡ pos 5
first_consumer = refl
