-- ===== src/Chat/Setup.antt =====
-- simpleTCP: `main` of TCPserver.c and of TCPclient.c, which prepare the connection.
--
-- What `socket`, `bind`, `listen`, `accept` and `connect` return is given.
use sysprg.Prelude.{
  ℕ, zero, suc, ◌≡◌, refl, Bool, true, false, List, [], ◌∷◌, ◌==◌, inl, inr, Bool-cases,
  if◌then◌else◌,
}
use sysprg.Prelude.Int.{ℤ, pos, negsuc}
use sysprg.Prelude.Text.{codes}

-- What `main` does, in order: a line printed, the chat over a descriptor, `close`.
pub data Op : Type 0 where
  prints : List ℕ → Op
  chats : ℤ → Op
  closes : ℤ → Op

pub record ServerNet : Type 0 where
  pub socket : ℤ
  pub bind : ℤ
  pub listen : ℤ
  pub accept : ℤ

pub record ClientNet : Type 0 where
  pub socket : ℤ
  pub connect : ℤ

-- `sockfd == -1`
abbrev pub is_minus_1 : ℤ → Bool
is_minus_1 (pos n) = false
is_minus_1 (negsuc n) = n == 0

-- `... != 0`
abbrev pub not_zero : ℤ → Bool
not_zero (pos zero) = false
not_zero (pos (suc n)) = true
not_zero (negsuc n) = true

-- `connfd < 0`
abbrev pub is_negative : ℤ → Bool
is_negative (pos n) = false
is_negative (negsuc n) = true

-- TCPserver.c from `accept` on
abbrev pub accept_and_chat : ServerNet → List Op
accept_and_chat net =
    prints (
      if is_negative net.accept
      then codes "server accept failed...\n"
      else codes "server accepts client request...\n")
    ∷ chats net.accept
    ∷ closes net.socket
    ∷ []

-- TCPserver.c
unfoldable pub server_main : ServerNet → List Op
server_main net =
    if is_minus_1 net.socket
    then prints (codes "socket creation failed ...\n") ∷ []
    else (prints (codes "Socket successfully created..\n")
        ∷ (if not_zero net.bind
            then prints (codes "socket bind failed...\n") ∷ []
            else (prints (codes "Success! Socket bound..\n")
                ∷ (if not_zero net.listen
                    then prints (codes "Listen failed..\n") ∷ []
                    else (prints (codes "Server listening...\n") ∷ accept_and_chat net)))))

-- TCPclient.c
unfoldable pub client_main : ClientNet → List Op
client_main net =
    if is_minus_1 net.socket
    then prints (codes "socket creation failed...\n") ∷ []
    else (prints (codes "Socket successfully created...\n")
        ∷ (if not_zero net.connect
            then prints (codes "connection to server failed...\n") ∷ []
            else (prints (codes "connected to server...\n")
                ∷ chats net.socket
                ∷ closes net.socket
                ∷ [])))

-- The descriptors over which there is a chat.
pub chatted : List Op → List ℤ
chatted [] = []
chatted (prints t ∷ ops) = chatted ops
chatted (chats fd ∷ ops) = fd ∷ chatted ops
chatted (closes fd ∷ ops) = chatted ops

server-chatted :
    (net : ServerNet)
    → chatted (server_main net) ≡ (
        if is_minus_1 net.socket
        then []
        else if not_zero net.bind
        then []
        else if not_zero net.listen
        then []
        else net.accept ∷ [])
unfolding server_main chatted
server-chatted net = elim (Bool-cases (is_minus_1 net.socket)) [
  | inl e ↦ rw e refl
  | inr e ↦ elim (Bool-cases (not_zero net.bind)) [
    | inl f ↦ rw (e, f) refl
    | inr f ↦ elim (Bool-cases (not_zero net.listen)) [
      | inl g ↦ rw (e, f, g) refl
      | inr g ↦ rw (e, f, g) refl
    ]
  ]
]

client-chatted :
    (net : ClientNet)
    → chatted (client_main net)
      ≡ (if is_minus_1 net.socket then [] else if not_zero net.connect then [] else net.socket ∷ [])
unfolding client_main chatted
client-chatted net = elim (Bool-cases (is_minus_1 net.socket)) [
  | inl e ↦ rw e refl
  | inr e ↦ elim (Bool-cases (not_zero net.connect)) [
    | inl f ↦ rw (e, f) refl
    | inr f ↦ rw (e, f) refl
  ]
]

-- The server chats exactly if its socket is made and bound and listens, also if `accept` failed, over
-- what `accept` returned. The client chats exactly if its socket is made and connected.
pub main-chatted :
    (server : ServerNet) (client : ClientNet)
    → (chatted (server_main server) ≡ (
        if is_minus_1 server.socket
        then []
        else if not_zero server.bind
        then []
        else if not_zero server.listen
        then []
        else server.accept ∷ []))
      × (chatted (client_main client) ≡ (
          if is_minus_1 client.socket
          then []
          else if not_zero client.connect
          then []
          else client.socket ∷ []))
main-chatted server client = (server-chatted server, client-chatted client)
