-- ===== src/PingPong.antt =====
-- directexec/cntxtsw/cntxtsw.c: a parent and a child that pass messages through two pipes.
--
-- A step is one call of one process. A message of 20 bytes goes through a pipe whole, so that a pipe is
-- the number of its messages. A read waits while the pipe is empty and the other process has its
-- end open, and gives nothing once that has ended. The closes after the first round fail, and the
-- program does not look. The failures of `pipe` and `fork`, which exit at once, and the times
-- taken are left out.
pub mod Turns
pub mod Ending
mod Tests
use sysprg.Prelude.{ℕ, zero, suc, ◌+◌, ◌-◌, ◌≡◌, ◌<◌, List, [], ◌∷◌, ltb, if◌then◌else◌}

-- `const size_t num_syscalls = 1000;`
abbrev pub num_syscalls : ℕ
num_syscalls = 1000

-- What is printed.
pub data Line : Type 0 where
  parent_writes : Line
  child_reads : Line
  child_writes : Line
  parent_reads : Line

-- Where the parent stands, in which round.
pub data ParentPc : Type 0 where
  p_close_1 : ℕ → ParentPc  -- before close(pipefd1[0])
  p_close_2 : ℕ → ParentPc  -- before close(pipefd2[1])
  p_say : ℕ → ParentPc  -- before its first printf
  p_write : ℕ → ParentPc  -- before write(pipefd1[1], ...)
  p_read : ℕ → ParentPc  -- before read(pipefd2[0], ...)
  p_said : ℕ → ParentPc  -- before its second printf
  p_end : ParentPc

-- Where the child stands.
pub data ChildPc : Type 0 where
  c_close_1 : ℕ → ChildPc  -- before close(pipefd1[1])
  c_close_2 : ℕ → ChildPc  -- before close(pipefd2[0])
  c_read : ℕ → ChildPc  -- before read(pipefd1[0], ...)
  c_said : ℕ → ChildPc  -- before its first printf
  c_say : ℕ → ChildPc  -- before its second printf
  c_write : ℕ → ChildPc  -- before write(pipefd2[1], ...)
  c_end : ChildPc

-- The pipes, the lines printed (the latest first), and the processes.
pub record System : Type 0 where
  pub pipe_1 : ℕ
  pub pipe_2 : ℕ
  pub printed : List Line
  pub p : ParentPc
  pub c : ChildPc

-- The heads of the two loops, for `n` rounds.
abbrev pub p_head : ℕ → ℕ → ParentPc
p_head n i = if ltb i n then p_close_1 i else p_end

abbrev pub c_head : ℕ → ℕ → ChildPc
c_head n i = if ltb i n then c_close_1 i else c_end

-- After `fork`, for `n` rounds.
abbrev pub start : ℕ → System
start n = record { pipe_1 = 0; pipe_2 = 0; printed = []; p = p_head n 0; c = c_head n 0 }

pub data Step (n : ℕ) (s : System) : System → Type 0 where
  parent_close_1 : (i : ℕ) → s.p ≡ p_close_1 i → Step n s (record s { p = p_close_2 i })
  parent_close_2 : (i : ℕ) → s.p ≡ p_close_2 i → Step n s (record s { p = p_say i })
  parent_say :
      (i : ℕ)
      → s.p ≡ p_say i
      → Step n s (record s { printed = parent_writes ∷ s.printed; p = p_write i })
  parent_write :
      (i : ℕ) → s.p ≡ p_write i → Step n s (record s { pipe_1 = s.pipe_1 + 1; p = p_read i })
  parent_read :
      (i : ℕ)
      → s.p ≡ p_read i
      → 0 < s.pipe_2
      → Step n s (record s { pipe_2 = s.pipe_2 - 1; p = p_said i })
  parent_read_end :
      (i : ℕ) → s.p ≡ p_read i → s.pipe_2 ≡ 0 → s.c ≡ c_end → Step n s (record s { p = p_said i })
  parent_said :
      (i : ℕ)
      → s.p ≡ p_said i
      → Step n s (record s { printed = parent_reads ∷ s.printed; p = p_head n (i + 1) })
  child_close_1 : (i : ℕ) → s.c ≡ c_close_1 i → Step n s (record s { c = c_close_2 i })
  child_close_2 : (i : ℕ) → s.c ≡ c_close_2 i → Step n s (record s { c = c_read i })
  child_read :
      (i : ℕ)
      → s.c ≡ c_read i
      → 0 < s.pipe_1
      → Step n s (record s { pipe_1 = s.pipe_1 - 1; c = c_said i })
  child_read_end :
      (i : ℕ) → s.c ≡ c_read i → s.pipe_1 ≡ 0 → s.p ≡ p_end → Step n s (record s { c = c_said i })
  child_said :
      (i : ℕ)
      → s.c ≡ c_said i
      → Step n s (record s { printed = child_reads ∷ s.printed; c = c_say i })
  child_say :
      (i : ℕ)
      → s.c ≡ c_say i
      → Step n s (record s { printed = child_writes ∷ s.printed; c = c_write i })
  child_write :
      (i : ℕ)
      → s.c ≡ c_write i
      → Step n s (record s { pipe_2 = s.pipe_2 + 1; c = c_head n (i + 1) })
