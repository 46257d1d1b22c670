-- ===== src/ReaderWriter/Exclusion.antt =====
-- Who is in the critical sections together, and where the second `sem_wait` leads.
use sysprg.Prelude.{ℕ, ◌<◌, ◌≡◌, true, false, arith, ℕ_discrete, ap, ◌∙◌}
use sysprg.ReaderWriter.{
  RwLock, Pc, Config, Move, System, Step, Steps, init, here, later, act, r_give, give,
}
use sysprg.ReaderWriter.Invariant.{
  Inv, free, writes, admitted, Reach-Inv, ReadersHold, Steps-ReadersHold,
}

Move-gives :
    {cfg : Config} {m m' : RwLock} {p p' : Pc} (i : ℕ)
    → Move cfg m p m' p'
    → p ≡ r_give i
    → 0 < m.writelock
Move-gives i (give g) e = g
Move-gives i _ e = cc

Step-blocks :
    {cfg : Config} {s t : System} (j i : ℕ)
    → Step cfg s t
    → ReadersHold s
    → s.pc j ≡ r_give i
    → t.pc j ≡ r_give i
Step-blocks {s} j i (act id mv) (inv, h) e = elim (ℕ_discrete id j) [
  | yes same ↦
      absurd (omega (arith, Move-gives i mv (ap s.pc same ∙ e), inv.writelock_value, ap free h))
  | no other ↦ ground arith
]

Steps-blocks :
    {cfg : Config} {s t : System} (j i : ℕ)
    → Steps cfg s t
    → ReadersHold s
    → s.pc j ≡ r_give i
    → t.pc j ≡ r_give i
Steps-blocks j i here h e = e
Steps-blocks j i (later r st) h e =
    Step-blocks j i st (Steps-ReadersHold r h) (Steps-blocks j i r h e)

module _ (cfg : Config) {s : System} (r : Steps cfg (init cfg) s) where
  -- In every reachable state at most one writer is between its wait and its post, and while one is,
  -- no reader is in the critical section.
  pub exclusion :
      (i j : ℕ)
      → writes (s.pc i) ≡ true
      → ((writes (s.pc j) ≡ true) → i ≡ j) × (admitted (s.pc j) ≡ false)
  exclusion i j h = (λ k. ground (arith, inv.has_writelock i, inv.has_writelock j), not_admitted)
    where
      inv : Inv s
      inv = Reach-Inv cfg r

      not_admitted : admitted (s.pc j) ≡ false
      not_admitted = ground (arith, inv.has_writelock i, inv.let_in j)

  -- Once a reader is past its wait for `writelock`, no writer is ever in its critical section again.
  pub writers_starve :
      {t : System} (j : ℕ)
      → admitted (s.pc j) ≡ true
      → Steps cfg s t
      → (k : ℕ) → writes (t.pc k) ≡ false
  writers_starve {t} j h st k = ground (arith, now.0.has_writelock k, now.1)
    where
      inv : Inv s
      inv = Reach-Inv cfg r

      now : ReadersHold t
      now = Steps-ReadersHold st (inv, inv.let_in j h)

  -- A reader that leaves last waits for `writelock`, which it should post: it stays there for ever,
  -- and has `lock`, so that no reader comes in or goes out again.
  pub last_reader_blocks :
      {t : System} (j i : ℕ)
      → s.pc j ≡ r_give i
      → Steps cfg s t
      → (t.pc j ≡ r_give i) × (t.mem.lock ≡ 0)
  last_reader_blocks {t} j i e st = (stays, locked)
    where
      inv : Inv s
      inv = Reach-Inv cfg r

      hold : ReadersHold s
      hold = (inv, inv.let_in j (ground arith))

      stays : t.pc j ≡ r_give i
      stays = Steps-blocks j i st hold e

      now : Inv t
      now = (Steps-ReadersHold st hold).0

      locked : t.mem.lock ≡ 0
      locked = ground (arith, stays, now.lock_value, now.owns j)
