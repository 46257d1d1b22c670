-- ===== src/PingPong/Turns.antt =====
-- cntxtsw.c: whose turn it is.
use sysprg.Prelude.{ℕ, zero, suc, ◌+◌, ◌<◌, ◌≡◌, ◌⊎◌, List, [], ◌∷◌, arith}
use sysprg.PingPong.{
  Line, parent_writes, child_reads, child_writes, parent_reads, ParentPc, p_close_1, p_close_2,
  p_say, p_write, p_read, p_said, p_end, ChildPc, c_close_1, c_close_2, c_read, c_said, c_say,
  c_write, c_end, System, Step, parent_close_1, parent_close_2, parent_say, parent_write,
  parent_read, parent_read_end, parent_said, child_close_1, child_close_2, child_read,
  child_read_end, child_said, child_say, child_write,
}

-- The lines of `i` rounds, the latest first.
abbrev pub rounds : ℕ → List Line
rounds zero = []
rounds (suc i) = parent_reads ∷ child_writes ∷ child_reads ∷ parent_writes ∷ rounds i

-- The child is in round `j` and has not read yet, or has ended if there is no such round.
abbrev pub Waits : ℕ → ℕ → ChildPc → Type 0
Waits n j (c_close_1 i) = (i ≡ j) × (j < n)
Waits n j (c_close_2 i) = (i ≡ j) × (j < n)
Waits n j (c_read i) = (i ≡ j) × (j < n)
Waits n j c_end = j ≡ n
Waits n j _ = ⊥

-- The message of round `i` is in its pipe for the child, which is in that round; or the answer is, and
-- the child is in the next round.
abbrev pub Sent : ℕ → ℕ → System → Type 0
Sent i j s =
    ((j ≡ i) × (s.pipe_1 ≡ 1) × (s.pipe_2 ≡ 0) × (s.printed ≡ parent_writes ∷ rounds i))
    ⊎ ((j ≡ i + 1)
        × (s.pipe_1 ≡ 0)
        × (s.pipe_2 ≡ 1)
        × (s.printed ≡ child_writes ∷ child_reads ∷ parent_writes ∷ rounds i))

-- The parent has sent the message of round `i` and has not printed the answer.
abbrev pub Answers : ℕ → ℕ → System → ChildPc → Type 0
Answers n i s (c_said j) =
    (i ≡ j) × (s.pipe_1 ≡ 0) × (s.pipe_2 ≡ 0) × (s.printed ≡ parent_writes ∷ rounds i)
Answers n i s (c_say j) =
    (i ≡ j) × (s.pipe_1 ≡ 0) × (s.pipe_2 ≡ 0) × (s.printed ≡ child_reads ∷ parent_writes ∷ rounds i)
Answers n i s (c_write j) =
    (i ≡ j)
    × (s.pipe_1 ≡ 0)
    × (s.pipe_2 ≡ 0)
    × (s.printed ≡ child_writes ∷ child_reads ∷ parent_writes ∷ rounds i)
Answers n i s (c_close_1 j) = (j < n) × Sent i j s
Answers n i s (c_close_2 j) = (j < n) × Sent i j s
Answers n i s (c_read j) = (j < n) × Sent i j s
Answers n i s c_end = Sent i n s

-- Both pipes are empty, the child waits for round `j`, and these lines are printed.
abbrev pub Quiet : ℕ → ℕ → List Line → System → Type 0
Quiet n j lines s = Waits n j s.c × (s.pipe_1 ≡ 0) × (s.pipe_2 ≡ 0) × (s.printed ≡ lines)

abbrev pub Turn : ℕ → System → ParentPc → Type 0
Turn n s (p_close_1 i) = (i < n) × Quiet n i (rounds i) s
Turn n s (p_close_2 i) = (i < n) × Quiet n i (rounds i) s
Turn n s (p_say i) = (i < n) × Quiet n i (rounds i) s
Turn n s (p_write i) = (i < n) × Quiet n i (parent_writes ∷ rounds i) s
Turn n s (p_read i) = (i < n) × Answers n i s s.c
Turn n s (p_said i) =
    (i < n) × Quiet n (i + 1) (child_writes ∷ child_reads ∷ parent_writes ∷ rounds i) s
Turn n s p_end = Quiet n n (rounds n) s

abbrev pub Inv : ℕ → System → Type 0
Inv n s = Turn n s s.p

pub Step-Inv : (n : ℕ) (s t : System) → Step n s t → Inv n s → Inv n t
Step-Inv n s t (parent_close_1 i e) inv = ground arith
Step-Inv n s t (parent_close_2 i e) inv = ground arith
Step-Inv n s t (parent_say i e) inv = ground arith
Step-Inv n s t (parent_write i e) inv = ground arith
Step-Inv n s t (parent_read i e h) inv = ground arith
Step-Inv n s t (parent_read_end i e h g) inv = ground arith
Step-Inv n s t (parent_said i e) inv = ground arith
Step-Inv n s t (child_close_1 i e) inv = ground arith
Step-Inv n s t (child_close_2 i e) inv = ground arith
Step-Inv n s t (child_read i e h) inv = ground arith
Step-Inv n s t (child_read_end i e h g) inv = ground arith
Step-Inv n s t (child_said i e) inv = ground arith
Step-Inv n s t (child_say i e) inv = ground arith
Step-Inv n s t (child_write i e) inv = ground arith
