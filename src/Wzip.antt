-- ===== src/Wzip.antt =====
-- ostep-projects/initial-utilities/wzip/wzip.c: run-length compression of a list of files.
-- A byte is a number below 256, `stdout` is the list of the bytes written so far, and an open file
-- is the list of its bytes, taken apart by `getline` of the C library.
pub mod Encoding
pub mod Push
pub mod Lines
pub mod Files
pub mod Main
mod Unused
mod Tests
use sysprg.Prelude.{
  ℕ, zero, suc, ◌+◌, ◌/◌, ◌%◌, ◌^◌, Bool, ◌&&◌, not, Option, none, some, List, [], ◌∷◌, ◌++◌,
  length, ltb, ◌==◌, ◌!=◌, if◌then◌else◌,
}
use sysprg.Prelude.Text.{codes}

-- `struct token`: a `u_int32_t` and a `u_int8_t`
pub record Token : Type 0 where
  pub count : ℕ
  pub ch : ℕ

-- `sizeof(t.count) + sizeof(t.ch)`
pub numbytes : Token → ℕ
numbytes t = 4 + 1

-- The four bytes of a `u_int32_t` in memory, lowest first, as `fwrite` writes them.
abbrev pub le_bytes : ℕ → List ℕ
le_bytes n = n % 256 ∷ n / 256 % 256 ∷ n / 65536 % 256 ∷ n / 16777216 % 256 ∷ []

-- The bytes that `printToken` writes to stdout; its two `perror` lines go to stderr.
pub print_token : Token → List ℕ
unfolding numbytes
print_token t = if numbytes t == 5 then le_bytes t.count ++ t.ch ∷ [] else []

pub update_token_count : Token → ℕ → Token
update_token_count t flag =
    if flag == b's'
    then record t { count = (t.count + 1) % 2 ^ 32 }
    else if flag == b'i'
    then record t { count = 1 }
    else if flag == b'n'
    then record t { count = 0 }
    else t

pub update_token_ch : Token → ℕ → Token
update_token_ch t c = record t { ch = c }

-- `isFirstOrigChar`; like the C function it does not look at `lstch`.
pub is_first_orig_char : ℕ → ℕ → Token → Bool
is_first_orig_char current lstch t = current == 0 && t.count == 0 && t.ch == 0

pub is_first_char_repeat : ℕ → ℕ → Token → Bool
is_first_char_repeat current lstch t = current == 0 && ltb 0 t.count && ltb 0 t.ch

pub is_new_char : ℕ → ℕ → ℕ → Token → Bool
is_new_char current curch lstch t = curch != t.ch && curch != 0 && current != 0 && lstch != 0

pub is_line_repeat_char : ℕ → ℕ → Bool
is_line_repeat_char curch lstch = curch == lstch

pub is_repeat_char : ℕ → ℕ → ℕ → Bool
is_repeat_char current curch lstch = curch == lstch && curch != 0 && current != 0 && lstch != 0

-- The variables that `readlines` carries from one character to the next, and stdout.
pub record Scan : Type 0 where
  pub out : List ℕ
  pub tok : Token
  pub lstch : ℕ

-- `printToken(t)`
pub emit : Scan → Scan
unfolding print_token
emit s = record s { out = s.out ++ print_token s.tok }

-- `t = updateTokenCount(t, flag)`
pub count_by : ℕ → Scan → Scan
unfolding update_token_count
count_by flag s = record s { tok = update_token_count s.tok flag }

-- `t = updateTokenCh(t, c)`
pub hold : ℕ → Scan → Scan
unfolding update_token_ch
hold c s = record s { tok = update_token_ch s.tok c }

-- What happens at the head of a line: "if there is state from last line, print it".
pub begin_line : ℕ → Scan → Scan
unfolding is_line_repeat_char emit count_by hold
begin_line initchar s =
    if s.lstch != 0 && not (is_line_repeat_char s.lstch initchar)
    then hold 0 (count_by b'n' (emit s))
    else s

-- The four statements of the loop over the characters, in their order.
pub sustain_first : ℕ → Scan → Scan
unfolding is_first_char_repeat count_by
sustain_first current s = if is_first_char_repeat current s.lstch s.tok then count_by b's' s else s

pub start_first : ℕ → ℕ → Scan → Scan
unfolding is_first_orig_char count_by hold
start_first current curch s =
    if is_first_orig_char current s.lstch s.tok then hold curch (count_by b'i' s) else s

pub start_new : ℕ → ℕ → Scan → Scan
unfolding is_new_char emit count_by hold
start_new current curch s =
    if is_new_char current curch s.lstch s.tok then hold curch (count_by b'i' (emit s)) else s

pub sustain : ℕ → ℕ → Scan → Scan
unfolding is_repeat_char count_by
sustain current curch s = if is_repeat_char current curch s.lstch then count_by b's' s else s

pub scan_char : ℕ → ℕ → Scan → Scan
unfolding sustain_first start_first start_new sustain
scan_char current curch s =
    let s' =
      sustain current curch
        (start_new current curch (start_first current curch (sustain_first current s))) in
    record s' { lstch = curch }

-- `for (; current < linelen; current++)`, over the characters that are left of the line
pub scan_line : ℕ → List ℕ → Scan → Scan
unfolding scan_char
scan_line current [] s = s
scan_line current (c ∷ line) s = scan_line (current + 1) line (scan_char current c s)

-- `getline`: the bytes up to the next newline and with it, or up to the end; and what is left.
pub getline : List ℕ → List ℕ × List ℕ
getline [] = ([], [])
getline (c ∷ rest) =
    if c == 10 then (c ∷ [], rest) else (let (line, left) = getline rest in (c ∷ line, left))

-- The body of the `while` for one line.
pub read_line : List ℕ → Scan → Scan
unfolding begin_line scan_line
read_line [] s = s
read_line (c ∷ line) s = scan_line 0 (c ∷ line) (begin_line c s)

-- The `while` loop of `readlines`: `getline` fails on a file with no byte left.
pub read_loop : ℕ → List ℕ → Scan → Option Scan
unfolding getline read_line
read_loop zero file s = none
read_loop (suc fuel) [] s = some s
read_loop (suc fuel) (c ∷ rest) s =
    let (line, left) = getline (c ∷ rest) in read_loop fuel left (read_line line s)

-- `readlines`: `lstch` starts at '\0' for each file, the token is the caller's. A round takes at
-- least one byte of the file, so the fuel is one more than its length.
pub readlines : List ℕ → List ℕ → Token → Option (List ℕ × Token)
unfolding read_loop
readlines file out t =
    elim (read_loop (suc (length file)) file (record { out = out; tok = t; lstch = 0 })) [
      | none ↦ none
      | some s ↦ some (s.out, s.tok)
    ]

abbrev pub null_token : Token
null_token = record { count = 0; ch = 0 }

-- What the program has returned, and what it has written to stdout.
pub record Exit : Type 0 where
  pub status : ℕ
  pub out : List ℕ

abbrev pub cannot_open : List ℕ
cannot_open = codes "wzip: cannot open file" ++ 10 ∷ []

-- `if (i >= nfiles)`: at the last file, flush the state.
pub flush_at_end : List (List ℕ) → List ℕ × Token → List ℕ × Token
unfolding print_token update_token_count update_token_ch
flush_at_end [] (out, t) = (out ++ print_token t, update_token_ch (update_token_count t b'n') 0)
flush_at_end (f ∷ rest) st = st

-- The loop of `procfiles`, over the names that are left. `i++` is made only if the token that
-- `readlines` returns has a count; otherwise the same file is opened again. `none`: out of fuel.
module _ (fopen : List ℕ → Option (List ℕ)) where
  pub proc_loop : ℕ → List (List ℕ) → List ℕ → Token → Option Exit
  unfolding readlines flush_at_end
  proc_loop zero names out t = none
  proc_loop (suc fuel) [] out t = some (record { status = 0; out = out })
  proc_loop (suc fuel) (f ∷ rest) out t = elim (fopen f) [
    | none ↦ some (record { status = 1; out = out ++ cannot_open })
    | some file ↦ elim (readlines file out t) [
      | none ↦ none
      | some (out', t') ↦
          let left = if t'.count != 0 then rest else f ∷ rest in
          let (out'', t'') = flush_at_end left (out', t') in proc_loop fuel left out'' t''
    ]
  ]

  pub procfiles : ℕ → List (List ℕ) → Option Exit
  unfolding proc_loop
  procfiles fuel names = proc_loop fuel names [] null_token

  -- `main`, over `argv` from index 1 on.
  pub main : ℕ → List (List ℕ) → Option Exit
  unfolding procfiles
  main fuel [] = some (record { status = 1; out = codes "wzip: file1 [file2 ...]" ++ 10 ∷ [] })
  main fuel (f ∷ rest) = elim (procfiles fuel (f ∷ rest)) [
    | none ↦ none
    | some r ↦ some (if r.status == 1 then record r { out = r.out ++ complaint } else r)
  ]
    where
      complaint : List ℕ
      complaint = codes "Error: failbytes are set to fail, call Sherlock!" ++ 10 ∷ []
