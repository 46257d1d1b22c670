-- ===== src/Buffer.antt =====
-- The shared buffer of concurrency/threads-cv: the globals of pc-header.h, `ensure` of
-- main-header.h, `do_fill` and `do_get` (the same in all four programs; cited from
-- main-two-cvs-while.c), and the part of `main` in main-common.c that makes the buffer.
pub mod Queue
mod Tests
use sysprg.Prelude.{
  ℕ, zero, suc, ◌+◌, ◌-◌, ◌%◌, Bool, true, false, Option, none, some, List, ◌==◌, if◌then◌else◌,
  get_elem?, set, replicate,
}
use sysprg.Prelude.Int.{ℤ, pos, negsuc}

-- `buffer[i] == EMPTY` and the like: the comparison of two `int`s
abbrev pub eq_int : ℤ → ℤ → Bool
eq_int (pos a) (pos b) = a == b
eq_int (negsuc a) (negsuc b) = a == b
eq_int _ _ = false

-- `EMPTY` is -2 and `END_OF_STREAM` is -1.
abbrev pub empty : ℤ
empty = negsuc 1

abbrev pub end_of_stream : ℤ
end_of_stream = negsuc 0

-- How a call ends: it returns, `ensure` ends the process by `exit(1)`, or an index is out of range.
pub data Outcome (A : Type 0) : Type 0 where
  ok : A → Outcome A
  exits : Outcome A
  fault : Outcome A

pub record Shared : Type 0 where
  pub buffer : List ℤ
  pub max : ℕ
  pub use_ptr : ℕ
  pub fill_ptr : ℕ
  pub num_full : ℕ

-- `ensure(expression, msg)`, followed by what the caller does next
unfoldable pub ensure : {A : Type 0} → Bool → Outcome A → Outcome A
ensure false next = exits
ensure true next = next

unfoldable pub do_fill : ℤ → Shared → Outcome Shared
unfolding ensure
do_fill value s = elim (get_elem? s.buffer s.fill_ptr) [
  | none ↦ fault
  | some old ↦ ensure (eq_int old empty) (
      ok (record s {
        buffer = set s.buffer s.fill_ptr value;
        fill_ptr = (s.fill_ptr + 1) % s.max;
        num_full = s.num_full + 1;
      }))
]

-- `num_full--` is made on an `int`; with the invariant below it is never 0 there.
unfoldable pub do_get : Shared → Outcome (ℤ × Shared)
unfolding ensure
do_get s = elim (get_elem? s.buffer s.use_ptr) [
  | none ↦ fault
  | some tmp ↦ ensure (if eq_int tmp empty then false else true) (
      ok (
        tmp,
        record s {
          buffer = set s.buffer s.use_ptr empty;
          use_ptr = (s.use_ptr + 1) % s.max;
          num_full = s.num_full - 1;
        },
      ))
]

-- `buffer = Malloc(...)` and the loop that stores `EMPTY`; the counters start at 0.
unfoldable pub make_buffer : ℕ → Shared
make_buffer max = record {
  buffer = replicate max empty;
  max = max;
  use_ptr = 0;
  fill_ptr = 0;
  num_full = 0;
}
