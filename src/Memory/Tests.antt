-- ===== src/Memory/Tests.antt =====
-- null.c writes past its block also if every `free` is accepted.
use sysprg.Prelude.{◌≡◌, refl, some, replicate}
use sysprg.Memory.{returns, fault, null_main}

past : null_main (λ address block. returns block) (some (replicate 100 0)) ≡ fault
unfolding null_main
past = refl
