-- ===== src/Barrier/Passing.antt =====
-- barrier.c does not hold threads back, and blocks for good.
use sysprg.Prelude.{ℕ, suc, ◌≡◌, refl}
use sysprg.Prelude.Int.{pos, ◌+ℤ◌, ◌-ℤ◌}
use sysprg.Barrier.{
  Barrier, returned, blocked, barrier, barrier_init, acquire_playlock, release_playlock, children,
}

-- Both semaphores are free or only the first, and nobody is inside.
abbrev pub idle : ℕ → ℕ → Barrier
idle playlock threads = record { lock = 1; playlock = playlock; players = pos 0; threads = threads }

barrier-idle :
    (playlock threads : ℕ)
    → barrier (idle (suc playlock) threads) ≡ returned (idle playlock threads)
unfolding barrier acquire_playlock release_playlock ◌+ℤ◌ ◌-ℤ◌
barrier-idle playlock threads = refl

abbrev pub stuck : ℕ → Barrier
stuck threads = record { lock = 0; playlock = 0; players = pos 0; threads = threads }

barrier-stuck : (threads : ℕ) → barrier (idle 0 threads) ≡ blocked (stuck threads)
unfolding barrier acquire_playlock release_playlock ◌+ℤ◌ ◌-ℤ◌
barrier-stuck threads = refl

-- For any number of threads the first that calls `barrier`, alone, returns, though the others have
-- not come; and if one calls after another has returned, the second of them blocks with `lock` taken,
-- after which every call of `barrier` blocks at once.
pub children-blocked :
    (threads n : ℕ)
    → (children 1 (barrier_init threads) ≡ returned (idle 0 threads))
      × (children (suc (suc n)) (barrier_init threads) ≡ blocked (stuck threads))
      × (barrier (stuck threads) ≡ blocked (stuck threads))
unfolding children barrier_init barrier acquire_playlock release_playlock ◌+ℤ◌ ◌-ℤ◌
children-blocked threads n = (refl, refl, refl)
