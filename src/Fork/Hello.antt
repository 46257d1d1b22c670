-- ===== src/Fork/Hello.antt =====
-- callfork2.c: what its two processes can print.
use sysprg.Prelude.{
  ℕ, ◌+◌, ◌≡◌, ◌↔◌, refl, ◌⊎◌, inl, inr, ◌==◌, if◌then◌else◌, Bool-cases, Option, List, [], ◌∷◌,
  arith,
}
use sysprg.Fork.{
  Line, after_fork, callfork2, rc_is, rc_is_minus_1, initpid_is, says_hello, says_goodbye,
}
use sysprg.Fork.Systems.{say_all}
use sysprg.Fork.Orders.{Shuffle, Shows, any_order}

module _ (execvp : List (List ℕ) → Option (List Line)) where
  -- The last line of a process of callfork2.c.
  abbrev pub last_line : ℕ → ℕ → ℕ → Line
  last_line initpid rc pid = if rc == initpid + 1 then says_hello pid else says_goodbye pid

  after_fork-say_all :
      (initpid rc pid : ℕ)
      → after_fork initpid rc pid
        ≡ say_all (rc_is rc ∷ initpid_is initpid ∷ last_line initpid rc pid ∷ [])
  unfolding after_fork
  after_fork-say_all initpid rc pid = elim (Bool-cases (rc == initpid + 1)) [
    | inl e ↦ rw e refl
    | inr e ↦ rw e refl
  ]

  last_line-child : (p c : ℕ) → last_line p 0 c ≡ says_goodbye c
  last_line-child p c = ground arith

  -- callfork2.c, with `p` and `c` for the numbers of the two processes: what can be shown at its
  -- end. The child, with 0 from `fork`, never says hello; it says goodbye with its own number. The
  -- parent says hello if its child has the next number, and otherwise goodbye. Apart
  -- from that their lines come in any order.
  pub callfork2_orders :
      (p c : ℕ) (zs : List Line)
      → ((zs ≡ rc_is_minus_1 ∷ initpid_is p ∷ [])
          ⊎ Shuffle
              (rc_is 0 ∷ initpid_is p ∷ says_goodbye c ∷ [])
              (rc_is c ∷ initpid_is p ∷ (if c == p + 1 then says_hello p else says_goodbye p) ∷ [])
              zs)
        ↔ Shows execvp (callfork2 p c) zs
  unfolding callfork2
  callfork2_orders p c zs =
      rw (after_fork-say_all p 0 c, after_fork-say_all p c p, last_line-child p c)
        (any_order execvp _ _ _ zs)
