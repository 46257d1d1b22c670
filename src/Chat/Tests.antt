-- ===== src/Chat/Tests.antt =====
-- simpleTCP: a chat of two rounds, and lines that are too long.
use sysprg.Stdio.{is_prefix}
use sysprg.Prelude.{true, false, ◌≡◌, refl, [], ◌∷◌, arith}
use sysprg.Prelude.Text.{codes}
use sysprg.Chat.{ok, is_exit, chat, ended}
use sysprg.Chat.Rounds.{IsLine, chat_lem}

exit-IsLine : IsLine (codes "exit")
exit-IsLine = (
  (
    (λ e. omega (arith, e)),
    ((λ e. omega (arith, e)), ((λ e. omega (arith, e)), ((λ e. omega (arith, e)), tt))),
  ),
  (
    (λ e. omega (arith, e)),
    ((λ e. omega (arith, e)), ((λ e. omega (arith, e)), ((λ e. omega (arith, e)), tt))),
  ),
  omega arith,
)

h-IsLine : IsLine (codes "H")
h-IsLine = (((λ e. omega (arith, e)), tt), ((λ e. omega (arith, e)), tt), omega arith)

exit_ends : (is_exit (codes "exit") ≡ true) × (is_exit (codes "H") ≡ false)
unfolding is_exit is_prefix
exit_ends = (refl, refl)

-- The client says exit, and then the server.
chat_lem_example :
    chat 2
      (record { typed = 101 ∷ 120 ∷ 105 ∷ 116 ∷ 10 ∷ 72 ∷ 10 ∷ 66 ∷ []; shown = [] })
      (record { typed = 72 ∷ 10 ∷ 101 ∷ 120 ∷ 105 ∷ 116 ∷ 10 ∷ []; shown = [] })
    ≡ ok (
        ended
          (record {
            typed = 66 ∷ [];
            shown = (72 ∷ 10 ∷ []) ∷ (101 ∷ 120 ∷ 105 ∷ 116 ∷ 10 ∷ []) ∷ [];
          })
          (record { typed = []; shown = (101 ∷ 120 ∷ 105 ∷ 116 ∷ 10 ∷ []) ∷ (72 ∷ 10 ∷ []) ∷ [] }))
chat_lem_example =
    chat_lem ((codes "exit", codes "H") ∷ (codes "H", codes "exit") ∷ []) 2 (codes "B") [] [] []
      (exit-IsLine, h-IsLine, exit_ends.1, (h-IsLine, exit-IsLine, exit_ends.0)) (omega arith)
