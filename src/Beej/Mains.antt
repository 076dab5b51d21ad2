-- ===== src/Beej/Mains.antt =====
-- The mains of week0/beej. A chat begins where these end: with its socket, and the name that is printed
-- for the other side.
use computer_networks_lab.Prelude.{ℕ, zero, suc, List, [], ◌∷◌, ◌++◌}
use computer_networks_lab.Libc.Text.{Bytes, codes, store, c_string}
use computer_networks_lab.Os.{
  stream, Call, Answer, failed, result, Kernel, Program, return, exit, tell, ask, need, ◌>>=◌, ◌>>◌,
}
use computer_networks_lab.Lab.Opening.{error, checked}
use computer_networks_lab.Beej.Opening.{
  client_arguments, addresses, connected, bind_server, open_server, accept_next, open_client,
}

-- "Hello World!" with its NUL: 13 bytes.
abbrev pub world : Bytes
world = codes "Hello World!" ++ 0 ∷ []

module _ (kernel : Kernel) (gai_strerror : Bytes) (ntop : Bytes → Bytes) where
  -- The child of simple/server.c.
  unfoldable pub greet : ℕ → ℕ → Program ℕ
  greet fd new = do
    tell (Call.close fd)
    _ ← checked kernel 1 (codes "send") (Call.write new world)
    exit 0

  -- `if (!fork ())`: a fork that fails is not 0.
  abbrev pub forked : ℕ → ℕ → Answer → Program ℕ
  forked fd new (result zero bytes) = greet fd new
  forked fd new a = tell (Call.close new) >> return 0

  -- A round of the loop of simple/server.c, in the process that fork makes it.
  unfoldable pub serve_one : ℕ → Program ℕ
  unfolding accept_next greet
  serve_one fd = do
    new ← accept_next kernel gai_strerror ntop fd
    child ← ask kernel Call.fork
    forked fd new child

  unfoldable pub serve : ℕ → ℕ → Program ℕ
  unfolding serve_one
  serve zero fd = return 0
  serve (suc n) fd = serve_one fd >>= λ x. serve n fd

  -- main of simple/server.c, for `n` rounds of its loop.
  unfoldable pub simple_server : ℕ → List Bytes → Program ℕ
  unfolding open_server serve
  simple_server n argv = open_server kernel gai_strerror ntop argv >>= serve n

  abbrev pub buffer_of : Bytes → Answer → Program Bytes
  buffer_of buffer failed = error 1 (codes "recv")
  buffer_of buffer (result n bytes) = return (store bytes buffer)

  -- main of simple/client.c; `buffer` is not initialised.
  unfoldable pub simple_client : Bytes → List Bytes → Program ℕ
  unfolding open_client store c_string
  simple_client buffer argv = do
    fd ← open_client kernel gai_strerror ntop argv
    buffer' ← ask kernel (Call.read fd 100) >>= buffer_of buffer
    text ← need (c_string buffer')
    tell (Call.printf (codes "Server sent: " ++ text ++ codes "\n"))
    return 0

  -- main of chat/server.c up to chat.
  unfoldable pub chat_server : List Bytes → Program (ℕ × Bytes)
  unfolding open_server accept_next
  chat_server argv = do
    fd ← open_server kernel gai_strerror ntop argv
    new ← accept_next kernel gai_strerror ntop fd
    return (new, codes "CLIENT")

  -- main of chat/client.c up to chat.
  unfoldable pub chat_client : List Bytes → Program (ℕ × Bytes)
  unfolding open_client
  chat_client argv = do fd ← open_client kernel gai_strerror ntop argv; return (fd, codes "SERVER")

  -- main of group_chat/client.c up to chat.
  unfoldable pub group_client : List Bytes → Program ℕ
  unfolding open_client
  group_client argv = open_client kernel gai_strerror ntop argv

  abbrev pub peer_of : Answer → Program Bytes
  peer_of failed = error 1 (codes "recvfrom")
  peer_of (result n address) = return address

  -- main of chat/udp/server.c up to chat: the socket of the chat is `newsockfd`, which is not
  -- initialised, and the bytes that come with recvfrom are the address of the client.
  unfoldable pub udp_chat_server : ℕ → List Bytes → Program (ℕ × Bytes)
  unfolding bind_server
  udp_chat_server newsockfd argv = do
    fd ← bind_server kernel gai_strerror ntop argv
    peer ← ask kernel (Call.recvfrom fd 256) >>= peer_of
    tell (connected kernel gai_strerror ntop peer)
    return (newsockfd, codes "CLIENT")

  -- main of chat/udp/client.c up to chat.
  unfoldable pub udp_chat_client : List Bytes → Program (ℕ × Bytes)
  udp_chat_client argv = do
    (host, port) ← client_arguments argv
    address ← ask kernel (Call.getaddrinfo host port) >>= addresses kernel gai_strerror ntop
    fd ← checked kernel 1 (codes "socket") (Call.socket stream)
    _ ← checked kernel 1 (codes "connect") (Call.sendto fd (codes "!" ++ 0 ∷ []) address [])
    tell (connected kernel gai_strerror ntop address)
    return (fd, codes "SERVER")
