-- ===== src/Chat.antt =====
-- ostep-projects/simpleTCP: `chatfun` of TCPclient.c and of TCPserver.c, and the two together.
--
-- What a user types is a list of bytes; at its end getchar gives EOF again and again, and the loop
-- that waits for a newline runs past the buffer. A write past the buffer and the print of a text with
-- no NUL are faults. A message of 80 bytes goes over the connection whole; the connection is there,
-- and `read` waits for the message.
pub mod Setup
pub mod Message
pub mod Rounds
mod Tests
use sysprg.Prelude.{
  ℕ, zero, suc, ◌+◌, Bool, true, false, List, [], ◌∷◌, ◌++◌, ◌==◌, ltb, set, replicate,
  if◌then◌else◌,
}
use sysprg.Prelude.Text.{codes}
use sysprg.Stdio.{is_prefix}

-- `MAX`
abbrev pub max : ℕ
max = 80

pub data Result {ℓ} (A : Type ℓ) : Type ℓ where
  ok : A → Result A
  fault : Result A

infixl 5 ◌>>=◌
abbrev pub ◌>>=◌ {ℓ κ} : {A : Type ℓ} {B : Type κ} → Result A → (A → Result B) → Result B
ok a >>= f = f a
fault >>= f = fault

-- `while ((buff[n++] = getchar()) != '\n');`, with what is still to be typed after it
pub get_chars : ℕ → List ℕ → List ℕ → Result (List ℕ × List ℕ)
get_chars n buff [] = fault
get_chars n buff (c ∷ cs) =
    let rest = get_chars (n + 1) (set buff n c) cs in
    if ltb n max then (if c == 10 then ok (set buff n c, cs) else rest) else fault

-- `bzero(buff, MAX); n = 0;` and the loop
unfoldable pub type_message : List ℕ → Result (List ℕ × List ℕ)
unfolding get_chars
type_message typed = get_chars 0 (replicate max 0) typed

-- `printf("... %s", buff)`: the bytes up to the first NUL
unfoldable pub print_string : List ℕ → Result (List ℕ)
print_string [] = fault
print_string (c ∷ cs) =
    let rest = print_string cs in if c == 0 then ok [] else (rest >>= λ more. ok (c ∷ more))

-- `strncmp("exit", buff, 4) == 0`
unfoldable pub is_exit : List ℕ → Bool
unfolding is_prefix
is_exit buff = is_prefix (codes "exit") buff

-- A process: what its user has still to type, and the messages that it has printed, the first
-- first.
pub record Side : Type 0 where
  pub typed : List ℕ
  pub shown : List (List ℕ)

-- TCPclient.c, a round up to `write`: the message for the server.
pub client_write : Side → Result (List ℕ × Side)
unfolding type_message
client_write s = do (buff, typed) ← type_message s.typed; ok (buff, record s { typed = typed })

-- TCPclient.c, a round from `read` on: whether the loop ends.
pub client_read : List ℕ → Side → Result (Bool × Side)
unfolding print_string is_exit
client_read buff s = do
  text ← print_string buff
  ok (is_exit buff, record s { shown = s.shown ++ text ∷ [] })

-- TCPserver.c, a round, on the message that was read: the reply and whether the loop ends.
pub server_round : List ℕ → Side → Result (List ℕ × Bool × Side)
unfolding print_string type_message is_exit
server_round msg s = do
  text ← print_string msg
  (buff, typed) ← type_message s.typed
  ok (buff, is_exit buff, record { typed = typed; shown = s.shown ++ text ∷ [] })

-- How the two stand in the end: both have ended, one of them has, or the chat goes on.
pub data Chat : Type 0 where
  ended : Side → Side → Chat
  one_left : Side → Side → Chat
  goes_on : Side → Side → Chat

abbrev pub go_on : Bool → Bool → Side → Side → Result Chat → Result Chat
go_on true true c s rest = ok (ended c s)
go_on false false c s rest = rest
go_on true false c s rest = ok (one_left c s)
go_on false true c s rest = ok (one_left c s)

-- Client and server, for `n` rounds at most.
unfoldable pub chat : ℕ → Side → Side → Result Chat
unfolding client_write client_read server_round
chat zero c s = ok (goes_on c s)
chat (suc n) c s = do
  (msg, c1) ← client_write c
  (reply, server_ends, s1) ← server_round msg s
  (client_ends, c2) ← client_read reply c1
  go_on client_ends server_ends c2 s1 (chat n c2 s1)
