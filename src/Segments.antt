-- ===== src/Segments.antt =====
-- memory/realtranslation/src/vmseg.c: the translation of a virtual address by segments. `main` does
-- it for one address, which is an argument here.
pub mod Translation
mod Tests
use sysprg.Prelude.{
  ℕ, zero, suc, ◌+◌, ◌-◌, ◌*◌, ◌/◌, ◌%◌, List, [], ◌∷◌, leb, get_or, if◌then◌else◌,
}

abbrev pub seg0_mask : ℕ
seg0_mask = 0

abbrev pub seg1_mask : ℕ
seg1_mask = 4096

abbrev pub address_space_sz : ℕ
address_space_sz = 128

-- `(VirtualAddress & SEG1_MASK) >> SEG_SHIFT`: bit 12 of the address
abbrev pub segment : ℕ → ℕ
segment virtual_address = virtual_address / 4096 % 2

-- `VirtualAddress & OFFSET_MASK`: the lowest 12 bits
abbrev pub offset : ℕ → ℕ
offset virtual_address = virtual_address % 4096

abbrev pub base : List ℕ
base = seg0_mask ∷ seg1_mask ∷ []

abbrev pub bounds : List ℕ
bounds = (seg0_mask + address_space_sz) ∷ (seg1_mask - address_space_sz) ∷ []

pub data Access : Type 0 where
  protection_fault : Access
  phys_addr : ℕ → Access

unfoldable pub translate : ℕ → Access
translate virtual_address =
    let s = segment virtual_address in
    let o = offset virtual_address in
    if leb (get_or bounds s 0) o then protection_fault else phys_addr (get_or base s 0 + o)
