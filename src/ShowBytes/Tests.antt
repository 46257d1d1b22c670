-- ===== src/ShowBytes/Tests.antt =====
-- The number of `main` of showbytes.c, 0x87654321.
use sysprg.Prelude.{◌≡◌, refl}
use sysprg.Prelude.Text.{codes}
use sysprg.ShowBytes.{show_int, show_bytes, low_bytes, main}

main_val : show_int 2271560481 ≡ codes " 21 43 65 87\n"
unfolding show_int
main_val = refl

-- The lowest byte of `val` comes first.
main_prints : main ≡ codes " 21\n 21 43\n 21 43 65\n 61 62 63 64 65 66\n"
unfolding main show_bytes low_bytes
main_prints = refl
