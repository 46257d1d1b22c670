-- ===== src/Fork/Tests.antt =====
-- process_api: runs of the programs.
use sysprg.Prelude.{ℕ, ◌≡◌, ◌↔◌, refl, ◌⊎◌, Option, none, some, List, [], ◌∷◌}
use sysprg.Prelude.Text.{codes}
use sysprg.Prelude.Reach.{Reach, here, next}
use sysprg.Fork.{
  callfork2, rc_is_minus_1, says_hello, Line, child_x, parent_x, hello_world, i_am_child, i_waited,
  rc_is, initpid_is, says_goodbye, of_program, end, callingfork, callexec, redirection, fkfile,
}
use sysprg.Fork.Systems.{
  System, Step, start, does_say, does_exec, does_close, does_open, by_parent, by_child, waits,
  forks,
}
use sysprg.Fork.Orders.{Shuffle, Shows}
use sysprg.Fork.Programs.{EndsAs, counts_words, waiters_end, fork_orders}

-- Each program has one line.
abbrev one_line : List (List ℕ) → Option (List Line)
one_line [] = none
one_line (name ∷ rest) = some (of_program name ∷ [])

callexec_run :
    (s : System) × Reach (Step one_line) (start (callexec 10 11)) s × (s.parent.rest ≡ end)
unfolding callexec
callexec_run = (
  _,
  next
      (next
        (next
          (next
            (next
              (next (next here (by_parent _ _ _ (does_say (hello_world 10) _ refl)))
                (forks _ _ _ refl))
              (by_child _ _ _ (does_say (i_am_child 11) _ refl)))
            (by_child _ _ _ (does_exec _ _ refl)))
          (by_child _ _ _ (does_say _ _ refl)))
        (waits _ refl refl))
      (by_parent _ _ _ (does_say (i_waited 11 11 10) _ refl)),
  refl,
)

waiters_end_example :
    EndsAs (hello_world 10 ∷ []) [] callexec_run.0
    ⊎ EndsAs
        (hello_world 10 ∷ i_am_child 11 ∷ of_program (codes "wc") ∷ i_waited 11 11 10 ∷ [])
        []
        callexec_run.0
    ⊎ ((t : System) × Step one_line callexec_run.0 t)
waiters_end_example = waiters_end one_line counts_words 10 11 callexec_run.0 callexec_run.1

-- The parent is first.
abbrev parents_first : List Line
parents_first = parent_x 11 700 10 ∷ child_x 900 11 ∷ []

fork_orders_example :
    (((parents_first ≡ []) ⊎ Shuffle (child_x 900 11 ∷ []) (parent_x 11 700 10 ∷ []) parents_first)
      ↔ Shows one_line (callingfork 10 11) parents_first)
    × (((parents_first ≡ rc_is_minus_1 ∷ initpid_is 10 ∷ [])
          ⊎ Shuffle
              (rc_is 0 ∷ initpid_is 10 ∷ says_goodbye 11 ∷ [])
              (rc_is 11 ∷ initpid_is 10 ∷ says_hello 10 ∷ [])
              parents_first)
        ↔ Shows one_line (callfork2 10 11) parents_first)
fork_orders_example = fork_orders one_line 10 11 parents_first

-- callfork2.c with both goodbyes, the child's first.
abbrev goodbyes : List Line
goodbyes =
    rc_is 0 ∷ initpid_is 10 ∷ says_goodbye 12 ∷ rc_is 12 ∷ initpid_is 10 ∷ says_goodbye 10 ∷ []

-- The output of `wc` is in the file.
redirection_run :
    (s : System) × Reach (Step one_line) (start (redirection 10 11)) s
    × (s.shown ≡ [])
    × (s.saved ≡ of_program (codes "wc") ∷ [])
unfolding redirection
redirection_run = (
  _,
  next
      (next
        (next (next (next here (forks _ _ _ refl)) (by_child _ _ _ (does_close _ refl)))
          (by_child _ _ _ (does_open _ refl)))
        (by_child _ _ _ (does_exec _ _ refl)))
      (by_child _ _ _ (does_say _ _ refl)),
  refl,
  refl,
)

-- fkfile.c: `ls` can be the first to write to the file.
fkfile_run :
    (s : System) × Reach (Step one_line) (start (fkfile 10 11)) s
    × (s.shown ≡ [])
    × (s.saved ≡ of_program (codes "ls") ∷ of_program (codes "wc") ∷ [])
unfolding fkfile
fkfile_run = (
  _,
  next
      (next
        (next
          (next
            (next
              (next (next here (by_parent _ _ _ (does_close _ refl)))
                (by_parent _ _ _ (does_open _ refl)))
              (forks _ _ _ refl))
            (by_parent _ _ _ (does_exec _ _ refl)))
          (by_parent _ _ _ (does_say _ _ refl)))
        (by_child _ _ _ (does_exec _ _ refl)))
      (by_child _ _ _ (does_say _ _ refl)),
  refl,
  refl,
)
