-- ===== src/ShowBytes.antt =====
-- prstrexec/byteordering/showbytes.c: the bytes of an object in hexadecimal. The machine stores the
-- lowest byte first.
pub mod Reading
mod Tests
use sysprg.Prelude.{ℕ, zero, suc, ◌+◌, ◌-◌, ◌/◌, ◌%◌, List, [], ◌∷◌, ◌++◌, ltb, take, if◌then◌else◌}
use sysprg.Prelude.Text.{codes}

-- A digit of "%x"
abbrev pub hex_digit : ℕ → ℕ
hex_digit n = if ltb n 10 then b'0' + n else b'a' + (n - 10)

-- The loop, over the `len` bytes that are left
pub show_loop : List ℕ → List ℕ
show_loop [] = []
show_loop (b ∷ bs) = b' ' ∷ hex_digit (b / 16) ∷ hex_digit (b % 16) ∷ show_loop bs

-- `show_bytes(start, len)`
unfoldable pub show_bytes : List ℕ → ℕ → List ℕ
unfolding show_loop
show_bytes start len = show_loop (take len start) ++ 10 ∷ []

-- `show_int`, of the 32-bit word `x`
unfoldable pub show_int : ℕ → List ℕ
unfolding show_bytes
show_int x = show_bytes (x % 256 ∷ x / 256 % 256 ∷ x / 65536 % 256 ∷ x / 16777216 % 256 ∷ []) 4

-- `show_float`, of a float that has the bits of the word `x`
unfoldable pub show_float : ℕ → List ℕ
unfolding show_int
show_float x = show_int x

-- The `n` bytes of a number, the lowest first.
pub low_bytes : ℕ → ℕ → List ℕ
low_bytes zero x = []
low_bytes (suc n) x = x % 256 ∷ low_bytes n (x / 256)

-- `show_pointer`, of an address of 64 bits
unfoldable pub show_pointer : ℕ → List ℕ
unfolding show_bytes low_bytes
show_pointer x = show_bytes (low_bytes 8 x) 8

abbrev pub val : ℕ
val = 2271560481

-- `main`: all that it prints. `val` is 0x87654321.
unfoldable pub main : List ℕ
unfolding show_bytes low_bytes
main =
    show_bytes (low_bytes 4 val) 1
    ++ show_bytes (low_bytes 4 val) 2
    ++ show_bytes (low_bytes 4 val) 3
    ++ show_bytes (codes "abcdef") 6
