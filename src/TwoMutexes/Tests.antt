-- ===== src/TwoMutexes/Tests.antt =====
-- The second thread of main-deadlock-global.c.
use sysprg.Prelude.{◌≡◌, refl, [], ◌∷◌}
use sysprg.VectorAdd.{lock, unlock}
use sysprg.TwoMutexes.{worker_global, g, m1, m2}

second : worker_global 1 ≡ lock g ∷ lock m2 ∷ lock m1 ∷ unlock m1 ∷ unlock m2 ∷ unlock g ∷ []
unfolding worker_global
second = refl
