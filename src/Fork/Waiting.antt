-- ===== src/Fork/Waiting.antt =====
-- process_api: a parent that waits for its child right after the fork.
use mathlib.Core.Path.{subst}
use sysprg.Prelude.{
  ℕ, ◌≡◌, refl, sym, ap, ◌∙◌, ◌⊎◌, inl, inr, Option, List, [], ◌∷◌, ◌++◌, append_assoc, append-nil,
}
use sysprg.Prelude.Reach.{Reach, Reach-keeps}
use sysprg.Fork.{Line, say, wait, fork, Row, end, ◌⨾◌}
use sysprg.Fork.Systems.{
  screen, Process, System, start, to_screen, to_file, Own, does_say, does_exec, does_close,
  does_open, Step, by_parent, by_child, waits, forks, fork_fails,
}
use sysprg.Fork.Printed.{
  IsPlain, lines, Own-Prints, Own-end, Own-wait, Own-fork, no_more, plain-Own,
}

-- First lines, then a fork, a wait and what follows: callingforkandwait.c, callexec.c, redirection.c.
unfoldable pub say_then : List Line → Row → Row
say_then [] k = k
say_then (l ∷ ls) k = say l ⨾ say_then ls k

module _ (execvp : List (List ℕ) → Option (List Line)) where
  module _ (before : List Line) (crow prow : Row) where
    abbrev at_fork : Row
    at_fork = fork crow end ⨾ wait ⨾ prow

    -- Where the two processes stand, and what the places have by then and will have.
    data Phase (s : System) : Type 0 where
      unforked :
          (todo : List Line)
          → s.parent.rest ≡ say_then todo at_fork
          → s.parent.stdout ≡ screen
          → s.child.rest ≡ end
          → s.shown ++ todo ≡ before
          → s.saved ≡ []
          → Phase s
      waiting :
          s.parent.rest ≡ wait ⨾ prow
          → s.parent.stdout ≡ screen
          → IsPlain s.child.rest
          → s.shown ++ lines execvp to_screen s.child.stdout s.child.rest
            ≡ before ++ lines execvp to_screen screen crow
          → s.saved ++ lines execvp to_file s.child.stdout s.child.rest
            ≡ lines execvp to_file screen crow
          → Phase s
      waited :
          IsPlain s.parent.rest
          → s.child.rest ≡ end
          → s.shown ++ lines execvp to_screen s.parent.stdout s.parent.rest
            ≡ (before ++ lines execvp to_screen screen crow) ++ lines execvp to_screen screen prow
          → s.saved ++ lines execvp to_file s.parent.stdout s.parent.rest
            ≡ lines execvp to_file screen crow ++ lines execvp to_file screen prow
          → Phase s
      failed : s.parent.rest ≡ end → s.child.rest ≡ end → s.shown ≡ before → s.saved ≡ [] → Phase s

    -- The parent before the fork.
    parent_says :
        (s : System) (todo a b : List Line) (pr : Process)
        → s.parent.rest ≡ say_then todo at_fork
        → s.parent.stdout ≡ screen
        → s.child.rest ≡ end
        → s.shown ++ todo ≡ before
        → s.saved ≡ []
        → Own execvp s.parent a b pr
        → Phase (record s { shown = s.shown ++ a; saved = s.saved ++ b; parent = pr })
    unfolding say_then
    parent_says s [] a b pr h o ce sh sa st =
        absurd (Own-fork execvp s.parent pr a b crow end (wait ⨾ prow) h st)
    parent_says s (l ∷ todo) _ _ _ h o ce sh sa (does_say m k e) =
        unforked todo (cc) o ce
          (let same : m ≡ l = cc in rw (o, same) (append_assoc s.shown (l ∷ []) todo ∙ sh))
          (rw (o, sa) refl)
    parent_says s (l ∷ todo) _ _ _ h o ce sh sa (does_exec command k e) = absurd (cc)
    parent_says s (l ∷ todo) _ _ _ h o ce sh sa (does_close k e) = absurd (cc)
    parent_says s (l ∷ todo) _ _ _ h o ce sh sa (does_open k e) = absurd (cc)

    -- What is there, with what comes now, leads to the same lines.
    now_later :
        (xs a ys zs goal : List Line) → ys ≡ a ++ zs → xs ++ ys ≡ goal → (xs ++ a) ++ zs ≡ goal
    now_later xs a ys zs goal e h = append_assoc xs a zs ∙ ap (λ l. xs ++ l) (sym e) ∙ h

    Step-Phase : IsPlain crow → IsPlain prow → (s t : System) → Step execvp s t → Phase s → Phase t
    unfolding say_then
    Step-Phase pc pp s _ (by_parent a b pr st) (unforked todo h o ce sh sa) =
        parent_says s todo a b pr h o ce sh sa st
    Step-Phase pc pp s _ (by_parent a b pr st) (waiting h o p sh sa) =
        absurd (Own-wait execvp s.parent pr a b prow h st)
    Step-Phase pc pp s _ (by_parent a b pr st) (waited p ce sh sa) =
        let q = Own-Prints execvp s.parent pr a b p st in
        waited q.plain ce (now_later s.shown a _ _ _ q.on_screen sh)
          (now_later s.saved b _ _ _ q.in_file sa)
    Step-Phase pc pp s _ (by_parent a b pr st) (failed h ce sh sa) =
        absurd (Own-end execvp s.parent pr a b h st)
    Step-Phase pc pp s _ (by_child a b pr st) (unforked todo h o ce sh sa) =
        absurd (Own-end execvp s.child pr a b ce st)
    Step-Phase pc pp s _ (by_child a b pr st) (waiting h o p sh sa) =
        let q = Own-Prints execvp s.child pr a b p st in
        waiting h o q.plain (now_later s.shown a _ _ _ q.on_screen sh)
          (now_later s.saved b _ _ _ q.in_file sa)
    Step-Phase pc pp s _ (by_child a b pr st) (waited p ce sh sa) =
        absurd (Own-end execvp s.child pr a b ce st)
    Step-Phase pc pp s _ (by_child a b pr st) (failed h ce sh sa) =
        absurd (Own-end execvp s.child pr a b ce st)
    Step-Phase pc pp s _ (waits k e ce) (unforked [] h o _ sh sa) = absurd (cc)
    Step-Phase pc pp s _ (waits k e ce) (unforked (l ∷ todo) h o _ sh sa) = absurd (cc)
    Step-Phase pc pp s _ (waits k e ce) (waiting h o p sh sa) =
        let same : k ≡ prow = cc in
        waited (subst IsPlain (sym same) pp) ce
          (rw (o, no_more execvp to_screen _ _ s.shown _ ce sh, same) refl)
          (rw (o, no_more execvp to_file _ _ s.saved _ ce sa, same) refl)
    Step-Phase pc pp s _ (waits k e ce) (waited p _ sh sa) = absurd (subst IsPlain e p)
    Step-Phase pc pp s _ (waits k e ce) (failed h _ sh sa) = absurd (cc)
    Step-Phase pc pp s _ (forks row instead k e) (unforked [] h o _ sh sa) =
        let same : row ≡ crow = cc in
        waiting (cc) o (subst IsPlain (sym same) pc)
          (rw (o, same, sym (append-nil s.shown) ∙ sh) refl) (rw (o, same, sa) refl)
    Step-Phase pc pp s _ (forks row instead k e) (unforked (l ∷ todo) h o _ sh sa) = absurd (cc)
    Step-Phase pc pp s _ (forks row instead k e) (waiting h o p sh sa) = absurd (cc)
    Step-Phase pc pp s _ (forks row instead k e) (waited p _ sh sa) = absurd (subst IsPlain e p)
    Step-Phase pc pp s _ (forks row instead k e) (failed h _ sh sa) = absurd (cc)
    Step-Phase pc pp s _ (fork_fails row instead k e) (unforked [] h o ce sh sa) =
        failed (cc) ce (sym (append-nil s.shown) ∙ sh) sa
    Step-Phase pc pp s _ (fork_fails row instead k e) (unforked (l ∷ todo) h o _ sh sa) =
        absurd (cc)
    Step-Phase pc pp s _ (fork_fails row instead k e) (waiting h o p sh sa) = absurd (cc)
    Step-Phase pc pp s _ (fork_fails row instead k e) (waited p _ sh sa) =
        absurd (subst IsPlain e p)
    Step-Phase pc pp s _ (fork_fails row instead k e) (failed h _ sh sa) = absurd (cc)

    -- Both have ended: the fork failed, or the child's lines come before those of the parent.
    abbrev pub Ended : System → Type 0
    Ended s =
        (s.parent.rest ≡ end)
        × (s.child.rest ≡ end)
        × (((s.shown ≡ before) × (s.saved ≡ []))
            ⊎ ((s.shown
                  ≡ (before ++ lines execvp to_screen screen crow)
                    ++ lines execvp to_screen screen prow)
                × (s.saved ≡ lines execvp to_file screen crow ++ lines execvp to_file screen prow)))

    Phase-Ended : (s : System) → Phase s → Ended s ⊎ ((t : System) × Step execvp s t)
    unfolding say_then
    Phase-Ended s (unforked [] h o ce sh sa) = inr (_, forks crow end (wait ⨾ prow) h)
    Phase-Ended s (unforked (l ∷ todo) h o ce sh sa) =
        inr (_, by_parent _ _ _ (does_say l (say_then todo at_fork) h))
    Phase-Ended s (waiting h o p sh sa) = elim (plain-Own execvp s.child s.child.rest refl p) [
      | inl ce ↦ inr (_, waits prow h ce)
      | inr (a, b, pr, st) ↦ inr (_, by_child a b pr st)
    ]
    Phase-Ended s (waited p ce sh sa) = elim (plain-Own execvp s.parent s.parent.rest refl p) [
      | inl pe ↦ inl (
        pe,
        ce,
        inr (no_more execvp to_screen _ _ _ _ pe sh, no_more execvp to_file _ _ _ _ pe sa),
      )
      | inr (a, b, pr, st) ↦ inr (_, by_parent a b pr st)
    ]
    Phase-Ended s (failed h ce sh sa) = inl (h, ce, inl (sh, sa))

    -- The parent says some lines, forks and waits, where neither the child nor the parent after
    -- the wait forks or waits again, as in callingforkandwait.c, callexec.c and redirection.c. A state
    -- that is reached has a next step or both have ended, and then, unless the fork failed, the lines
    -- of the child stand before those that the parent prints after the wait, on the screen
    -- and in the file.
    pub child_first :
        (s : System)
        → IsPlain crow
        → IsPlain prow
        → Reach (Step execvp) (start (say_then before at_fork)) s
        → Ended s ⊎ ((t : System) × Step execvp s t)
    child_first s pc pp r =
        let begin : Phase (start (say_then before at_fork)) =
          unforked before refl refl refl refl refl in
        Phase-Ended s (Reach-keeps (Step execvp) Phase (Step-Phase pc pp) begin r)
