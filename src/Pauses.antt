-- ===== src/Pauses.antt =====
-- concurrency/threads-cv/main-header.h: `parse_pause_string`, which reads how long each thread
-- is to sleep, and what `do_print_buffer` shows of the buffer.
--
-- `atoi` is a parameter. A string is its bytes; `strtok_r` skips empty pieces.
pub mod Parsing
mod Trace
mod Tests
use sysprg.Prelude.{
  ℕ, zero, suc, ◌+◌, Bool, true, false, ◌&&◌, Option, none, some, List, [], ◌∷◌, ◌++◌, ◌==◌, ltb,
  leb, length, set, replicate, if◌then◌else◌, get_or,
}
use sysprg.Prelude.Text.{codes}
use sysprg.Prelude.Int.{ℤ, pos}
use sysprg.Buffer.{Shared, empty, end_of_stream, eq_int}

abbrev pub max_threads : ℕ
max_threads = 100

-- A piece that has ended is kept if it is not empty.
abbrev pub keep_piece : List ℕ → List (List ℕ) → List (List ℕ)
keep_piece [] pieces = pieces
keep_piece (c ∷ cs) pieces = (c ∷ cs) ∷ pieces

-- The pieces that the calls of `strtok_r` give, with the bytes read of the one in hand.
pub pieces_from : ℕ → List ℕ → List ℕ → List (List ℕ)
pieces_from sep piece [] = keep_piece piece []
pieces_from sep piece (c ∷ cs) =
    let next = pieces_from sep [] cs in
    let longer = pieces_from sep (piece ++ c ∷ []) cs in
    if c == sep then keep_piece piece next else longer

unfoldable pub strtok : ℕ → List ℕ → List (List ℕ)
unfolding pieces_from
strtok sep str = pieces_from sep [] str

-- The rows of `pause_array` that are written, an exit with status 1, or a write past the array.
pub data Parsed : Type 0 where
  rows : List (List ℤ) → Parsed
  exited : Parsed
  fault : Parsed

module _ (atoi : List ℕ → ℤ) where
  -- The loop over the pieces between commas; `none`: `ensure` exits.
  pub fill_row : ℕ → List ℤ → List (List ℕ) → Option (List ℤ)
  fill_row inner_index row [] = some row
  fill_row inner_index row (c ∷ cs) =
      let rest = fill_row (inner_index + 1) (set row inner_index (atoi c)) cs in
      if ltb inner_index 7 then rest else none

  abbrev pub add_row : List ℤ → Parsed → Parsed
  add_row row (rows more) = rows (row ∷ more)
  add_row row exited = exited
  add_row row fault = fault

  -- The loop over the pieces between colons, and the test of their number after it.
  pub parse_loop : ℕ → ℕ → List (List ℕ) → Parsed
  unfolding fill_row
  parse_loop expected index [] = if expected == index then rows [] else exited
  parse_loop expected index (p ∷ ps) =
      let rest = parse_loop expected (index + 1) ps in
      if ltb index max_threads
      then (elim (fill_row 0 (replicate 7 (pos 0)) (strtok b',' p)) [
        | none ↦ exited
        | some row ↦ add_row row rest
      ])
      else fault

  unfoldable pub parse_pause_string : List ℕ → ℕ → Parsed
  unfolding parse_loop
  parse_pause_string str expected_pieces = parse_loop expected_pieces 0 (strtok b':' str)

-- `do_print_pointers(index)`
pub do_print_pointers : Shared → ℕ → List ℕ
do_print_pointers s index =
    if s.use_ptr == index && s.fill_ptr == index
    then codes "*"
    else if s.use_ptr == index
    then codes "u"
    else if s.fill_ptr == index
    then codes "f"
    else codes " "

-- `do_print_buffer`; `printf` with "%3d" is a parameter.
module _ (printf3 : ℤ → List ℕ) where
  pub print_cells : Shared → ℕ → List ℤ → List ℕ
  unfolding do_print_pointers
  print_cells s index [] = []
  print_cells s index (v ∷ vs) =
      do_print_pointers s index
      ++ (if eq_int v empty
          then codes "--- "
          else if eq_int v end_of_stream
          then codes "EOS "
          else printf3 v ++ codes " ")
      ++ print_cells s (index + 1) vs

  unfoldable pub do_print_buffer : Shared → List ℕ
  unfolding print_cells
  do_print_buffer s =
      printf3 (pos s.num_full) ++ codes " [" ++ print_cells s 0 s.buffer ++ codes "] "
