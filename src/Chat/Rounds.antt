-- ===== src/Chat/Rounds.antt =====
-- simpleTCP: a whole chat.
use sysprg.Prelude.{
  ℕ, zero, suc, ◌≤◌, ◌<◌, ◌≡◌, refl, ◌∙◌, true, false, List, [], ◌∷◌, ◌++◌, append_assoc, length,
  lt→ltb, arith,
}
use sysprg.Stdio.Laws.{HasNoNul}
use sysprg.Chat.{
  ok, ended, chat, is_exit, type_message, print_string, client_write, client_read, server_round,
}
use sysprg.Chat.Message.{HasNoNewline, filled, message_lem, is_exit-filled}

-- A line that can be typed and printed.
abbrev pub IsLine : List ℕ → Type 0
IsLine l = HasNoNewline l × HasNoNul l × (length l < 79)

-- The rounds of a chat, each with the lines of the client and of the server: the server does not
-- say exit but in the last of them.
abbrev pub IsTalk : List (List ℕ × List ℕ) → Type 0
IsTalk [] = ⊥
IsTalk ((l, r) ∷ []) = IsLine l × IsLine r × (is_exit r ≡ true)
IsTalk ((l, r) ∷ q ∷ ps) = IsLine l × IsLine r × (is_exit r ≡ false) × IsTalk (q ∷ ps)

-- What the two users type.
abbrev pub client_types : List (List ℕ × List ℕ) → List ℕ → List ℕ
client_types [] more = more
client_types ((l, r) ∷ ps) more = l ++ 10 ∷ client_types ps more

abbrev pub server_types : List (List ℕ × List ℕ) → List ℕ → List ℕ
server_types [] more = more
server_types ((l, r) ∷ ps) more = r ++ 10 ∷ server_types ps more

-- The texts that the two print.
abbrev pub client_shows : List (List ℕ × List ℕ) → List (List ℕ)
client_shows [] = []
client_shows ((l, r) ∷ ps) = (r ++ 10 ∷ []) ∷ client_shows ps

abbrev pub server_shows : List (List ℕ × List ℕ) → List (List ℕ)
server_shows [] = []
server_shows ((l, r) ∷ ps) = (l ++ 10 ∷ []) ∷ server_shows ps

type_message-line :
    (l more : List ℕ) → IsLine l → type_message (l ++ 10 ∷ more) ≡ ok (filled l, more)
type_message-line l more (h, z, lt) =
    (message_lem l more h z).0 ∙ rw (lt→ltb (length l) 80 (omega arith)) refl

print_string-line : (l : List ℕ) → IsLine l → print_string (filled l) ≡ ok (l ++ 10 ∷ [])
print_string-line l (h, z, lt) = (message_lem l [] h z).2 ∙ rw (lt→ltb (length l) 79 lt) refl

-- One round of both.
client_write-line :
    (l more : List ℕ) (a : List (List ℕ))
    → IsLine l
    → client_write (record { typed = l ++ 10 ∷ more; shown = a })
      ≡ ok (filled l, record { typed = more; shown = a })
unfolding client_write
client_write-line l more a h = rw (type_message-line l more h) refl

client_read-line :
    (r more : List ℕ) (a : List (List ℕ))
    → IsLine r
    → client_read (filled r) (record { typed = more; shown = a })
      ≡ ok (is_exit r, record { typed = more; shown = a ++ (r ++ 10 ∷ []) ∷ [] })
unfolding client_read
client_read-line r more a h = rw (print_string-line r h, is_exit-filled r) refl

server_round-line :
    (l r more : List ℕ) (a : List (List ℕ))
    → IsLine l
    → IsLine r
    → server_round (filled l) (record { typed = r ++ 10 ∷ more; shown = a })
      ≡ ok (filled r, is_exit r, record { typed = more; shown = a ++ (l ++ 10 ∷ []) ∷ [] })
unfolding server_round
server_round-line l r more a h g =
    rw (print_string-line l h, type_message-line r more g, is_exit-filled r) refl

-- A chat in which each line can be typed and printed, and the server says exit in the last round and
-- not before, ends for both in that round, given as many rounds: each has printed the
-- lines of the other, in order, and has left what its user typed after that. What the client
-- says ends nothing.
pub chat_lem :
    (ps : List (List ℕ × List ℕ)) (n : ℕ) (more more' : List ℕ) (a b : List (List ℕ))
    → IsTalk ps
    → length ps ≤ n
    → chat n
        (record { typed = client_types ps more; shown = a })
        (record { typed = server_types ps more'; shown = b })
      ≡ ok (
          ended
            (record { typed = more; shown = a ++ client_shows ps })
            (record { typed = more'; shown = b ++ server_shows ps }))
unfolding chat
chat_lem [] n more more' a b h le = absurd h
chat_lem (p ∷ ps) zero more more' a b h le = absurd (omega arith)
chat_lem ((l, r) ∷ []) (suc n) more more' a b (hl, hr, ex) le =
    rw
      (
        client_write-line l more a hl,
        server_round-line l r more' b hl hr,
        client_read-line r more a hr,
        ex,
      )
      refl
chat_lem ((l, r) ∷ q ∷ ps) (suc n) more more' a b (hl, hr, ex, hs) le =
    let c1 = a ++ (r ++ 10 ∷ []) ∷ [] in
    let s1 = b ++ (l ++ 10 ∷ []) ∷ [] in
    rw
      (
        client_write-line l _ a hl,
        server_round-line l r _ b hl hr,
        client_read-line r _ a hr,
        ex,
        chat_lem (q ∷ ps) n more more' c1 s1 hs (omega arith),
        append_assoc a ((r ++ 10 ∷ []) ∷ []) (client_shows (q ∷ ps)),
        append_assoc b ((l ++ 10 ∷ []) ∷ []) (server_shows (q ∷ ps)),
      )
      refl
