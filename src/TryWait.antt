-- ===== src/TryWait.antt =====
-- concurrency/threads-bugs/vector-try-wait.c: `vector_add` by pthread_mutex_trylock, as the threads
-- of main-common.c call it.
--
-- A step is one call of the thread library, or the loop over the values, which the thread does with
-- both mutexes. trylock fails on a mutex that any thread has, its own too. The counter `retry`, which
-- only `fini` prints, is left out.
pub mod Exclusion
pub mod Returns
pub mod Retries
mod Tests
use sysprg.Prelude.{ℕ, zero, suc, ◌+◌, ◌<◌, ◌≡◌, ◌≢◌, Option, none, some, update}
use sysprg.VectorAdd.{Store, Config, add_values, vector_init}
use sysprg.NoLock.{dst, src}

-- Where a thread stands, with the number of its calls that have returned.
pub data Pc : Type 0 where
  top : ℕ → Pc  -- before the first trylock
  second : ℕ → Pc  -- before the second
  backing : ℕ → Pc  -- before the unlock after the second has failed
  adding : ℕ → Pc  -- before the loop
  unlock_dst : ℕ → Pc
  unlock_src : ℕ → Pc

pub record System : Type 0 where
  pub owner : ℕ → Option ℕ
  pub values : Store
  pub pc : ℕ → Pc

abbrev pub start : System
start = record { owner = λ l. none; values = vector_init; pc = λ j. top 0 }

module _ (cfg : Config) where
  -- A step of thread `j`.
  pub data Step (j : ℕ) (s : System) : System → Type 0 where
    takes_dst :
        (r : ℕ)
        → s.pc j ≡ top r
        → r < cfg.loops
        → s.owner (dst cfg j) ≡ none
        → Step j s (record s {
          owner = update s.owner (dst cfg j) (some j);
          pc = update s.pc j (second r);
        })
    fails_dst : (r : ℕ) → s.pc j ≡ top r → r < cfg.loops → s.owner (dst cfg j) ≢ none → Step j s s
    takes_src :
        (r : ℕ)
        → s.pc j ≡ second r
        → s.owner (src cfg j) ≡ none
        → Step j s (record s {
          owner = update s.owner (src cfg j) (some j);
          pc = update s.pc j (adding r);
        })
    fails_src :
        (r : ℕ)
        → s.pc j ≡ second r
        → s.owner (src cfg j) ≢ none
        → Step j s (record s { pc = update s.pc j (backing r) })
    backs_off :
        (r : ℕ)
        → s.pc j ≡ backing r
        → Step j s
            (record s { owner = update s.owner (dst cfg j) none; pc = update s.pc j (top r) })
    adds :
        (r : ℕ)
        → s.pc j ≡ adding r
        → Step j s (record s {
          values = add_values (dst cfg j) (src cfg j) s.values;
          pc = update s.pc j (unlock_dst r);
        })
    unlocks_dst :
        (r : ℕ)
        → s.pc j ≡ unlock_dst r
        → Step j s (record s {
          owner = update s.owner (dst cfg j) none;
          pc = update s.pc j (unlock_src r);
        })
    unlocks_src :
        (r : ℕ)
        → s.pc j ≡ unlock_src r
        → Step j s
            (record s { owner = update s.owner (src cfg j) none; pc = update s.pc j (top (r + 1)) })

  pub data AnyStep (s : System) : System → Type 0 where
    step : {t : System} (j : ℕ) → j < cfg.num_threads → Step j s t → AnyStep s t
