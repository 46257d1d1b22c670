-- ===== src/Segments/Tests.antt =====
-- vmseg.c on the address of its `main`.
use sysprg.Prelude.{◌≡◌, refl}
use sysprg.Segments.{translate, phys_addr}

-- The address of `main`, 0x1000 + 108
main_address : translate 4204 ≡ phys_addr 4204
unfolding translate
main_address = refl
