-- ===== src/Balance.antt =====
-- concurrency/threads-api/main-race.c: `worker` and `main` add one each to `balance`, under a mutex.
--
-- `balance++` is a read and a write. The calls of the thread library succeed, so that no error is
-- printed.
pub mod Total
mod Tests
use sysprg.Prelude.{ℕ, ◌+◌, ◌≡◌}

-- Where a thread stands.
pub data Pc : Type 0 where
  begin : Pc  -- `main` before pthread_create; `worker` before it is there
  locking : Pc
  reading : Pc
  writing : ℕ → Pc  -- with the value read
  unlocking : Pc
  joining : Pc  -- only `main`
  ended : Pc

pub data Owner : Type 0 where
  nobody : Owner
  by_main : Owner
  by_worker : Owner

pub record System : Type 0 where
  pub balance : ℕ
  pub lock : Owner
  pub main : Pc
  pub worker : Pc

abbrev pub start : System
start = record { balance = 0; lock = nobody; main = begin; worker = begin }

pub data Step (s : System) : System → Type 0 where
  create : s.main ≡ begin → Step s (record s { main = locking; worker = locking })
  main_lock :
      s.main ≡ locking → s.lock ≡ nobody → Step s (record s { lock = by_main; main = reading })
  main_read : s.main ≡ reading → Step s (record s { main = writing s.balance })
  main_write :
      (n : ℕ) → s.main ≡ writing n → Step s (record s { balance = n + 1; main = unlocking })
  main_unlock : s.main ≡ unlocking → Step s (record s { lock = nobody; main = joining })
  main_join : s.main ≡ joining → s.worker ≡ ended → Step s (record s { main = ended })
  worker_lock :
      s.worker ≡ locking
      → s.lock ≡ nobody
      → Step s (record s { lock = by_worker; worker = reading })
  worker_read : s.worker ≡ reading → Step s (record s { worker = writing s.balance })
  worker_write :
      (n : ℕ) → s.worker ≡ writing n → Step s (record s { balance = n + 1; worker = unlocking })
  worker_unlock : s.worker ≡ unlocking → Step s (record s { lock = nobody; worker = ended })
