-- ===== src/Environ.antt =====
-- process/environment/environ.c: the environment of a process.
--
-- `getenv` is a parameter. To print NULL with "%s" is undefined.
use sysprg.Prelude.{ℕ, ◌≡◌, refl, ap, Option, none, some, List, [], ◌∷◌, ◌++◌}
use sysprg.Prelude.Text.{codes}

pub data Event : Type 0 where
  line : List ℕ → Event
  undefined : Event

-- `printf("...: %s\n", value)`
abbrev pub print_value : List ℕ → Option (List ℕ) → Event
print_value label none = undefined
print_value label (some value) = line (label ++ value)

-- The loop over `environ`, which ends with NULL, and what follows it.
pub print_environ : List (List ℕ) → List Event → List Event
print_environ [] after = after
print_environ (entry ∷ environ) after = line entry ∷ print_environ environ after

module _ (getenv : List (List ℕ) → List ℕ → Option (List ℕ)) where
  unfoldable pub main : List (List ℕ) → List Event
  unfolding print_environ
  main environ = print_environ environ (
      print_value (codes "Shell: ") (getenv environ (codes "SHELL"))
      ∷ print_value (codes "Session Manager: ") (getenv environ (codes "SESSION_MANAGER"))
      ∷ [])

abbrev lines : List (List ℕ) → List Event
lines [] = []
lines (e ∷ es) = line e ∷ lines es

print_environ_lem :
    (environ : List (List ℕ)) (after : List Event)
    → print_environ environ after ≡ lines environ ++ after
unfolding print_environ
print_environ_lem [] after = refl
print_environ_lem (e ∷ environ) after = ap (λ es. line e ∷ es) (print_environ_lem environ after)

-- Where both variables are set, `main` prints each entry and then the two values.
main_lem :
    (getenv : List (List ℕ) → List ℕ → Option (List ℕ)) (environ : List (List ℕ))
    (shell sesman : List ℕ)
    → getenv environ (codes "SHELL") ≡ some shell
    → getenv environ (codes "SESSION_MANAGER") ≡ some sesman
    → main getenv environ
      ≡ lines environ
        ++ line (codes "Shell: " ++ shell) ∷ line (codes "Session Manager: " ++ sesman) ∷ []
unfolding main
main_lem getenv environ shell sesman e f = rw (e, f, print_environ_lem environ) refl
