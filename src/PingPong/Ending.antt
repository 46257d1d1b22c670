-- ===== src/PingPong/Ending.antt =====
-- cntxtsw.c: the program ends, and what it has printed by then.
use sysprg.Prelude.{ℕ, ◌+◌, ◌-◌, ◌*◌, ◌≤◌, ◌<◌, ◌≡◌, refl, ◌⊎◌, inl, inr, ltb, arith, Bool-cases}
use sysprg.Prelude.Reach.{Reach, Reach-keeps, steps, steps_bounded}
use sysprg.PingPong.{
  ParentPc, p_close_1, p_close_2, p_say, p_write, p_read, p_said, p_end, ChildPc, c_close_1,
  c_close_2, c_read, c_said, c_say, c_write, c_end, System, start, Step, parent_close_1,
  parent_close_2, parent_say, parent_write, parent_read, parent_read_end, parent_said,
  child_close_1, child_close_2, child_read, child_read_end, child_said, child_say, child_write,
}
use sysprg.PingPong.Turns.{rounds, Waits, Answers, Turn, Inv, Step-Inv}

start-Inv : (n : ℕ) → Inv n (start n)
start-Inv n = elim (Bool-cases (ltb 0 n)) [
  | inl e ↦ rw e (ground arith)
  | inr e ↦ rw e (ground arith)
]

reached-Inv : (n : ℕ) {s : System} → Reach (Step n) (start n) s → Inv n s
reached-Inv n r = Reach-keeps (Step n) (Inv n) (Step-Inv n) (start-Inv n) r

abbrev Ended : System → Type 0
Ended s = (s.p ≡ p_end) × (s.c ≡ c_end)

module _ (n : ℕ) (s : System) where
  -- While the parent waits for its answer, it can read it or the child goes on.
  answer-Step :
      (i : ℕ) (c : ChildPc)
      → s.p ≡ p_read i
      → s.c ≡ c
      → i < n
      → Answers n i s c
      → (t : System) × Step n s t
  answer-Step i (c_close_1 j) e f lt a = (_, child_close_1 j f)
  answer-Step i (c_close_2 j) e f lt a = (_, child_close_2 j f)
  answer-Step i (c_read j) e f lt (l, inl h) = (_, child_read j f (omega arith))
  answer-Step i (c_read j) e f lt (l, inr h) = (_, parent_read i e (omega arith))
  answer-Step i (c_said j) e f lt a = (_, child_said j f)
  answer-Step i (c_say j) e f lt a = (_, child_say j f)
  answer-Step i (c_write j) e f lt a = (_, child_write j f)
  answer-Step i c_end e f lt (inl h) = absurd (omega arith)
  answer-Step i c_end e f lt (inr h) = (_, parent_read i e (omega arith))

  -- Once the parent has ended, the child has.
  last-Step : (c : ChildPc) → s.p ≡ p_end → s.c ≡ c → Waits n n c → Ended s
  last-Step c_end e f w = (e, f)
  last-Step (c_close_1 j) e f w = absurd (omega arith)
  last-Step (c_close_2 j) e f w = absurd (omega arith)
  last-Step (c_read j) e f w = absurd (omega arith)
  last-Step (c_said j) e f w = absurd w
  last-Step (c_say j) e f w = absurd w
  last-Step (c_write j) e f w = absurd w

  Turn-Step : (p : ParentPc) → s.p ≡ p → Turn n s p → Ended s ⊎ ((t : System) × Step n s t)
  Turn-Step (p_close_1 i) e h = inr (_, parent_close_1 i e)
  Turn-Step (p_close_2 i) e h = inr (_, parent_close_2 i e)
  Turn-Step (p_say i) e h = inr (_, parent_say i e)
  Turn-Step (p_write i) e h = inr (_, parent_write i e)
  Turn-Step (p_read i) e h = inr (answer-Step i s.c e refl h.0 h.1)
  Turn-Step (p_said i) e h = inr (_, parent_said i e)
  Turn-Step p_end e h = inl (last-Step s.c e refl h.0)

parent_left : ℕ → ParentPc → ℕ
parent_left n (p_close_1 i) = (n - i) * 6
parent_left n (p_close_2 i) = (n - i) * 6 - 1
parent_left n (p_say i) = (n - i) * 6 - 2
parent_left n (p_write i) = (n - i) * 6 - 3
parent_left n (p_read i) = (n - i) * 6 - 4
parent_left n (p_said i) = (n - i) * 6 - 5
parent_left n p_end = 0

child_left : ℕ → ChildPc → ℕ
child_left n (c_close_1 i) = (n - i) * 6
child_left n (c_close_2 i) = (n - i) * 6 - 1
child_left n (c_read i) = (n - i) * 6 - 2
child_left n (c_said i) = (n - i) * 6 - 3
child_left n (c_say i) = (n - i) * 6 - 4
child_left n (c_write i) = (n - i) * 6 - 5
child_left n c_end = 0

left : ℕ → System → ℕ
unfolding parent_left child_left
left n s = parent_left n s.p + child_left n s.c

Step-left : (n : ℕ) (s t : System) → Step n s t → Inv n s → left n t < left n s
unfolding left
Step-left n s t (parent_close_1 i e) inv = ground arith
Step-left n s t (parent_close_2 i e) inv = ground arith
Step-left n s t (parent_say i e) inv = ground arith
Step-left n s t (parent_write i e) inv = ground arith
Step-left n s t (parent_read i e h) inv = ground arith
Step-left n s t (parent_read_end i e h g) inv = ground arith
Step-left n s t (parent_said i e) inv = ground arith
Step-left n s t (child_close_1 i e) inv = ground arith
Step-left n s t (child_close_2 i e) inv = ground arith
Step-left n s t (child_read i e h) inv = ground arith
Step-left n s t (child_read_end i e h g) inv = ground arith
Step-left n s t (child_said i e) inv = ground arith
Step-left n s t (child_say i e) inv = ground arith
Step-left n s t (child_write i e) inv = ground arith

left-start : (n : ℕ) → left n (start n) ≤ 12 * n
unfolding left parent_left child_left
left-start n = ground arith

-- A state that the two processes come to in `n` rounds is the end of both or one from which a process can
-- go on. At the end the two have printed, by turns, four lines for each round: the parent
-- writes, the child reads, the child writes, the parent reads; and both pipes are empty.
pub rounds_printed :
    (n : ℕ) (s : System)
    → Reach (Step n) (start n) s
    → (Ended s ⊎ ((t : System) × Step n s t))
      × (Ended s → (s.printed ≡ rounds n) × (s.pipe_1 ≡ 0) × (s.pipe_2 ≡ 0))
rounds_printed n s r =
    let inv : Inv n s = reached-Inv n r in (Turn-Step n s s.p refl inv, λ e. ground (arith, e))

-- No run of `n` rounds has more than 12 * n steps: neither process waits for ever.
pub steps_of_rounds :
    (n : ℕ) (s : System) (r : Reach (Step n) (start n) s) → steps (Step n) r ≤ 12 * n
steps_of_rounds n s r = omega (
  arith,
  steps_bounded (Step n) (Inv n) (left n) (Step-Inv n) (Step-left n) (start-Inv n) r,
  left-start n,
)
