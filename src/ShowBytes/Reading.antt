-- ===== src/ShowBytes/Reading.antt =====
-- What showbytes.c prints can be read back.
use sysprg.Prelude.{
  ℕ, zero, suc, ◌+◌, ◌-◌, ◌*◌, ◌/◌, ◌%◌, ◌^◌, ◌<◌, ◌≡◌, refl, ap, ◌∙◌, List, [], ◌∷◌, ◌++◌, ltb,
  take, if◌then◌else◌, arith,
}
use sysprg.ShowBytes.{hex_digit, show_loop, show_bytes, show_int}

-- The value of a digit
abbrev pub digit_value : ℕ → ℕ
digit_value c = if ltb c b'a' then c - b'0' else c - b'a' + 10

-- The bytes of a line that `show_bytes` printed
pub read_bytes : List ℕ → List ℕ
read_bytes (sp ∷ h ∷ l ∷ cs) = (digit_value h * 16 + digit_value l) ∷ read_bytes cs
read_bytes _ = []

digit_value-hex_digit : (n : ℕ) → n < 16 → digit_value (hex_digit n) ≡ n
digit_value-hex_digit n h = ground arith

abbrev pub AreBytes : List ℕ → Type 0
AreBytes [] = Unit
AreBytes (b ∷ bs) = (b < 256) × AreBytes bs

-- The number that four bytes make, the lowest first
abbrev pub word : List ℕ → ℕ
word [] = 0
word (b ∷ bs) = b + 256 * word bs

read-show_loop : (bs : List ℕ) → AreBytes bs → read_bytes (show_loop bs ++ 10 ∷ []) ≡ bs
unfolding read_bytes show_loop
read-show_loop [] h = refl
read-show_loop (b ∷ bs) (h, hs) =
    let e : b / 16 * 16 + b % 16 ≡ b = omega arith in
    rw
      (
        digit_value-hex_digit (b / 16) (omega arith),
        digit_value-hex_digit (b % 16) (omega arith),
        read-show_loop bs hs,
        e,
      )
      refl

AreBytes-take : (n : ℕ) (bs : List ℕ) → AreBytes bs → AreBytes (take n bs)
AreBytes-take zero bs h = tt
AreBytes-take (suc n) [] h = tt
AreBytes-take (suc n) (b ∷ bs) (h, hs) = (h, AreBytes-take n bs hs)

-- The line that `show_bytes` prints can be read back to the first `len` bytes, and that of `show_int`
-- to the number, for each 32-bit word.
pub read-show_bytes :
    ((bs : List ℕ) (len : ℕ) → AreBytes bs → read_bytes (show_bytes bs len) ≡ take len bs)
    × ((x : ℕ) → x < 2 ^ 32 → word (read_bytes (show_int x)) ≡ x)
unfolding show_bytes show_int
read-show_bytes = (
  λ bs len h. read-show_loop (take len bs) (AreBytes-take len bs h),
  λ x h.
      let e : x % 256
            + 256 * (x / 256 % 256 + 256 * (x / 65536 % 256 + 256 * (x / 16777216 % 256 + 256 * 0)))
          ≡ x =
        omega arith in
      ap word (
        read-show_loop (x % 256 ∷ x / 256 % 256 ∷ x / 65536 % 256 ∷ x / 16777216 % 256 ∷ [])
          (omega arith, (omega arith, (omega arith, (omega arith, tt)))))
      ∙ e,
)
