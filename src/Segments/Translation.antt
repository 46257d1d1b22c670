-- ===== src/Segments/Translation.antt =====
-- vmseg.c: which addresses are translated, and to what.
use sysprg.Prelude.{
  ℕ, ◌+◌, ◌-◌, ◌≤◌, ◌<◌, ◌≡◌, ◌⊎◌, inl, inr, refl, ap, ◌∙◌, dec_lt, leb, if◌then◌else◌, arith, true,
  false,
}
use sysprg.Segments.{protection_fault, phys_addr, translate, segment, offset}

-- The addresses of 13 bits at which the two segments have memory.
abbrev pub Mapped : ℕ → Type 0
Mapped va = (va < 128) ⊎ ((4096 ≤ va) × (va < 4096 + 3968))

leb_lt : (a b : ℕ) → b < a → leb a b ≡ false
leb_lt a b h = ground arith

le_leb : (a b : ℕ) → a ≤ b → leb a b ≡ true
le_leb a b h = ground arith

low : (va : ℕ) → va < 4096 → (segment va ≡ 0) × (offset va ≡ va)
low va h = (omega arith, omega arith)

high : (va : ℕ) → 4096 ≤ va → va < 8192 → (segment va ≡ 1) × (offset va ≡ va - 4096)
high va h g = (omega arith, omega arith)

low_lem :
    (va : ℕ)
    → va < 4096
    → translate va ≡ (if leb 128 va then protection_fault else phys_addr (0 + va))
unfolding translate
low_lem va h = rw ((low va h).0, (low va h).1) refl

high_lem :
    (va : ℕ)
    → 4096 ≤ va
    → va < 8192
    → translate va
      ≡ (if leb 3968 (va - 4096) then protection_fault else phys_addr (4096 + (va - 4096)))
unfolding translate
high_lem va h g = rw ((high va h g).0, (high va h g).1) refl

outside_low : (va : ℕ) → ¬ Mapped va → 128 ≤ va
outside_low va n = elim (dec_lt va 128) [ yes l ↦ absurd (n (inl l)) | no g ↦ omega arith ]

outside_high : (va : ℕ) → ¬ Mapped va → 4096 ≤ va → 3968 ≤ va - 4096
outside_high va n h = elim (dec_lt va (4096 + 3968)) [
  | yes l ↦ absurd (n (inr (h, l)))
  | no g ↦ omega arith
]

-- An address of 13 bits in one of the segments is translated to itself, and any other of 13 bits
-- raises a protection fault.
pub translate_lem :
    (va : ℕ)
    → va < 8192
    → (Mapped va → translate va ≡ phys_addr va) × ((¬ Mapped va) → translate va ≡ protection_fault)
translate_lem va h = (
  λ m. elim m [
    | inl l ↦
        let e : 0 + va ≡ va = omega arith in
        low_lem va (omega arith) ∙ rw (leb_lt 128 va l) (ap phys_addr e)
    | inr g ↦
        let e : 4096 + (va - 4096) ≡ va = omega arith in
        high_lem va g.0 (omega arith) ∙ rw (leb_lt 3968 (va - 4096) (omega arith)) (ap phys_addr e)
  ],
  λ n. elim (dec_lt va 4096) [
    | yes l ↦ low_lem va l ∙ rw (le_leb 128 va (outside_low va n)) refl
    | no l ↦
        high_lem va (omega arith) h
        ∙ rw (le_leb 3968 (va - 4096) (outside_high va n (omega arith))) refl
  ],
)
