-- ===== src/Fork/Programs.antt =====
-- process_api: what callingfork.c, callfork2.c, callingforkandwait.c, callexec.c and redirection.c print.
use sysprg.Prelude.{
  ℕ, ◌+◌, ◌≡◌, ◌↔◌, refl, ap, ◌∙◌, ◌⊎◌, inl, inr, ◌==◌, if◌then◌else◌, Option, none, some, List, [],
  ◌∷◌, ◌++◌, append-nil,
}
use sysprg.Prelude.Text.{codes}
use sysprg.Prelude.Reach.{Reach}
use sysprg.Fork.{
  Line, hello_world, i_am_child, i_am_parent, i_waited, child_x, parent_x, not_reached, rc_is,
  rc_is_minus_1, initpid_is, says_goodbye, says_hello, say, exec, close_stdout, open_file, Row, end,
  ◌⨾◌, callingfork, callfork2, callingforkandwait, callexec, redirection,
}
use sysprg.Fork.Systems.{screen, file, to_screen, to_file, System, start, Step}
use sysprg.Fork.Printed.{all_lines, exec_lines, lines}
use sysprg.Fork.Orders.{Shuffle, Shows, any_order}
use sysprg.Fork.Hello.{callfork2_orders}
use sysprg.Fork.Waiting.{say_then, Ended, child_first}

-- The programs whose parent waits.
pub data Waiter : Type 0 where
  waits_only : Waiter
  counts_words : Waiter
  redirects : Waiter

abbrev pub program_of : Waiter → ℕ → ℕ → Row
program_of waits_only = callingforkandwait
program_of counts_words = callexec
program_of redirects = redirection

-- What a child prints from its call of `execvp` on.
abbrev pub said : Option (List Line) → List Line
said none = not_reached ∷ []
said (some ls) = ls

pub record EndsAs (shown saved : List Line) (s : System) : Type 0 where
  pub parent_ended : s.parent.rest ≡ end
  pub child_ended : s.child.rest ≡ end
  pub on_screen : s.shown ≡ shown
  pub in_file : s.saved ≡ saved

module _ (execvp : List (List ℕ) → Option (List Line)) where
  -- What `wc` prints, or the line after `execvp` if that returns.
  abbrev pub counted : List ℕ → List Line
  counted name = said (execvp (codes "wc" ∷ name ∷ []))

  -- What the screen shows if the fork fails.
  abbrev pub shows_first : Waiter → ℕ → List Line
  shows_first waits_only p = hello_world p ∷ []
  shows_first counts_words p = hello_world p ∷ []
  shows_first redirects p = []

  -- What the screen shows, and what is in the file, if it does not.
  abbrev pub shows_all : Waiter → ℕ → ℕ → List Line
  shows_all waits_only p c = hello_world p ∷ i_am_child c ∷ i_am_parent c p ∷ []
  shows_all counts_words p c =
      hello_world p ∷ i_am_child c ∷ counted (codes "callexec.c") ++ i_waited c c p ∷ []
  shows_all redirects p c = []

  abbrev pub saves_all : Waiter → List Line
  saves_all waits_only = []
  saves_all counts_words = []
  saves_all redirects = counted (codes "redirection.c")

  -- The lines of another program where standard output is the place, and where it is not.
  lines_here : (ls : List Line) → all_lines execvp to_screen screen ls ≡ ls
  lines_here [] = refl
  lines_here (l ∷ ls) = ap (λ xs. l ∷ xs) (lines_here ls)

  lines_saved : (ls : List Line) → all_lines execvp to_file file ls ≡ ls
  lines_saved [] = refl
  lines_saved (l ∷ ls) = ap (λ xs. l ∷ xs) (lines_saved ls)

  lines_not_saved : (ls : List Line) → all_lines execvp to_file screen ls ≡ []
  lines_not_saved [] = refl
  lines_not_saved (l ∷ ls) = lines_not_saved ls

  lines_not_here : (ls : List Line) → all_lines execvp to_screen file ls ≡ []
  lines_not_here [] = refl
  lines_not_here (l ∷ ls) = lines_not_here ls

  exec_here :
      (o : Option (List Line)) → exec_lines execvp to_screen screen o (not_reached ∷ []) ≡ said o
  exec_here none = refl
  exec_here (some ls) = lines_here ls

  exec_saved :
      (o : Option (List Line)) → exec_lines execvp to_file file o (not_reached ∷ []) ≡ said o
  exec_saved none = refl
  exec_saved (some ls) = lines_saved ls

  exec_not_saved : (o : Option (List Line)) → exec_lines execvp to_file screen o [] ≡ []
  exec_not_saved none = refl
  exec_not_saved (some ls) = lines_not_saved ls

  exec_not_here : (o : Option (List Line)) → exec_lines execvp to_screen file o [] ≡ []
  exec_not_here none = refl
  exec_not_here (some ls) = lines_not_here ls

  -- The end that a waiting parent's rows come to, with its lines written out.
  ends_as :
      (before first all saved : List Line) (crow prow : Row) (s : System)
      → before ≡ first
      → (before ++ lines execvp to_screen screen crow) ++ lines execvp to_screen screen prow ≡ all
      → lines execvp to_file screen crow ++ lines execvp to_file screen prow ≡ saved
      → Ended execvp before crow prow s ⊎ ((t : System) × Step execvp s t)
      → EndsAs first [] s ⊎ EndsAs all saved s ⊎ ((t : System) × Step execvp s t)
  ends_as before first all saved crow prow s b a f (inl (pe, ce, inl (sh, sa))) =
      inl (record { parent_ended = pe; child_ended = ce; on_screen = sh ∙ b; in_file = sa })
  ends_as before first all saved crow prow s b a f (inl (pe, ce, inr (sh, sa))) =
      inr
        (inl (record { parent_ended = pe; child_ended = ce; on_screen = sh ∙ a; in_file = sa ∙ f }))
  ends_as before first all saved crow prow s b a f (inr st) = inr (inr st)

  -- callingforkandwait.c, callexec.c and redirection.c, in which the parent waits: a state that is
  -- reached has a next step, or both processes have ended. Then either the screen shows the greeting
  -- of the first two programs only, and nothing of the third, as where the fork fails; or it shows the
  -- greeting, what the child prints, with the lines of `wc` (or the line after `execvp`, if that
  -- returned), and only then the line of the parent. Of redirection.c the screen shows nothing, and the
  -- file has what `wc` prints, or that line; the other two write to no file.
  pub waiters_end :
      (w : Waiter) (p c : ℕ) (s : System)
      → Reach (Step execvp) (start (program_of w p c)) s
      → EndsAs (shows_first w p) [] s
        ⊎ EndsAs (shows_all w p c) (saves_all w) s
        ⊎ ((t : System) × Step execvp s t)
  unfolding callingforkandwait callexec redirection say_then
  waiters_end waits_only p c s r =
      ends_as (hello_world p ∷ []) _ _ _ (say (i_am_child c) ⨾ end) (say (i_am_parent c p) ⨾ end) s
        refl refl refl (child_first execvp (hello_world p ∷ []) _ _ s tt tt r)
  waiters_end counts_words p c s r =
      let o = execvp (codes "wc" ∷ codes "callexec.c" ∷ []) in
      ends_as (hello_world p ∷ []) _ _ _
        (say (i_am_child c) ⨾ exec (codes "wc" ∷ codes "callexec.c" ∷ []) ⨾ say not_reached ⨾ end)
        (say (i_waited c c p) ⨾ end) s refl
        (ap (λ ls. hello_world p ∷ i_am_child c ∷ ls ++ i_waited c c p ∷ []) (exec_here o))
        (ap (λ ls. ls ++ []) (exec_not_saved o))
        (child_first execvp (hello_world p ∷ []) _ _ s tt tt r)
  waiters_end redirects p c s r =
      let o = execvp (codes "wc" ∷ codes "redirection.c" ∷ []) in
      ends_as [] _ _ _
        (close_stdout
          ⨾ open_file
          ⨾ exec (codes "wc" ∷ codes "redirection.c" ∷ [])
          ⨾ say not_reached
          ⨾ end)
        end s refl (ap (λ ls. ls ++ []) (exec_not_here o)) (append-nil _ ∙ exec_saved o)
        (child_first execvp [] _ _ s tt tt r)

  -- callingfork.c and callfork2.c, with `p` and `c` for the numbers of the two processes: what can be
  -- shown when both have ended, and that is all that can be. callingfork.c: nothing if the fork fails;
  -- otherwise "(child) x: 900" and "(parent) x: 700", each with its numbers, in any order.
  -- callfork2.c: "rc: -1" and the parent's number if the fork fails; otherwise the three lines of the
  -- child, which says goodbye, and the three of the parent, which says hello if its child has the next
  -- number and goodbye if not, put together in any order.
  pub fork_orders :
      (p c : ℕ) (zs : List Line)
      → (((zs ≡ []) ⊎ Shuffle (child_x 900 c ∷ []) (parent_x c 700 p ∷ []) zs)
          ↔ Shows execvp (callingfork p c) zs)
        × (((zs ≡ rc_is_minus_1 ∷ initpid_is p ∷ [])
              ⊎ Shuffle
                  (rc_is 0 ∷ initpid_is p ∷ says_goodbye c ∷ [])
                  (rc_is c
                    ∷ initpid_is p
                    ∷ (if c == p + 1 then says_hello p else says_goodbye p)
                    ∷ [])
                  zs)
            ↔ Shows execvp (callfork2 p c) zs)
  unfolding callingfork
  fork_orders p c zs = (
    any_order execvp (child_x 900 c ∷ []) (parent_x c 700 p ∷ []) [] zs,
    callfork2_orders execvp p c zs,
  )
