-- ===== src/Shell/Tests.antt =====
-- The shell where `ls` cannot be run, with the line `pwd` again and again.
use sysprg.Prelude.{ℕ, ◌≡◌, refl, inl, true, none, some, List, Option}
use sysprg.Prelude.Text.{codes}
use sysprg.Shell.Program.{World, main, path}
use sysprg.Shell.Ending.{successes, faulted, shells, shells_fault}

abbrev no_program : List (List ℕ) → Option (List ℕ)
no_program command = none

abbrev world : World
world = record { forks = λ n. true; lines = λ n. some (codes "pwd\n") }

shells_fault_example :
    (successes (main no_program 1 world).0 ≡ 0)
    × (faulted (main no_program 1 world).0 ≡ shells no_program path)
shells_fault_example =
    shells_fault no_program 1 world (inl refl) (λ n. (codes "pwd\n", refl)) (λ n. refl)

sixteen : shells no_program path ≡ 16
unfolding shells
sixteen = refl
