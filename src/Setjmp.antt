-- ===== src/Setjmp.antt =====
-- process/setjmp_vars/setjmp_vars.c: variables after a `longjmp`.
--
-- C: what a variable that is not volatile, and was changed after `setjmp`, holds after `longjmp` is
-- not determined; the parameter `kept` says what the compiler's choice comes to.
use sysprg.Prelude.{ℕ, ◌≡◌, refl, List, [], ◌∷◌, if◌then◌else◌, ◌==◌}

pub record Variables : Type 0 where
  pub nvar : ℕ
  pub rvar : ℕ
  pub vvar : ℕ

pub data Event : Type 0 where
  inside_do_jump : Variables → Event
  after_longjmp : Variables → Event

-- `doJump`: what it prints, and the value that `setjmp` then returns.
abbrev pub do_jump : Variables → Event × ℕ
do_jump vars = (inside_do_jump vars, 1)

module _ (kept : Variables → Variables → Variables) where
  -- The variables when `setjmp` returns again, from those at its first return and those at the jump:
  -- `vvar` is volatile.
  abbrev pub restored : Variables → Variables → Variables
  restored before now = record (kept before now) { vvar = now.vvar }

  -- What follows `setjmp` when it returns a second time.
  abbrev pub returned_again : ℕ → Variables → List Event
  returned_again rc vars = if rc == 0 then [] else after_longjmp vars ∷ []

  unfoldable pub main : List Event
  main =
      let before : Variables = record { nvar = 111; rvar = 222; vvar = 333 } in
      let now : Variables = record { nvar = 777; rvar = 888; vvar = 999 } in
      let (said, rc) = do_jump now in said ∷ returned_again rc (restored before now)

  -- Whatever the compiler does, `main` prints both lines, the jump is not taken again, and the
  -- second line has 999 for `vvar`.
  main_lem :
      (nvar : ℕ) × (rvar : ℕ) × (main
        ≡ inside_do_jump (record { nvar = 777; rvar = 888; vvar = 999 })
          ∷ after_longjmp (record { nvar = nvar; rvar = rvar; vvar = 999 })
          ∷ [])
  unfolding main
  main_lem = (
    (kept (record { nvar = 111; rvar = 222; vvar = 333 })
        (record { nvar = 777; rvar = 888; vvar = 999 })).nvar,
    (kept (record { nvar = 111; rvar = 222; vvar = 333 })
        (record { nvar = 777; rvar = 888; vvar = 999 })).rvar,
    refl,
  )
