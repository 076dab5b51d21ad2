-- ===== src/Beej/Opening.antt =====
-- How the programs of week0/beej open their sockets. inet_ntop, with the address of a connection, and
-- gai_strerror are parameters. An address is what getaddrinfo or accept gave, and NULL is no text.
use computer_networks_lab.Prelude.{ℕ, List, [], ◌∷◌, ◌++◌}
use computer_networks_lab.Libc.Text.{Bytes, codes}
use computer_networks_lab.Os.{
  stream, Call, Answer, failed, result, Kernel, Program, return, exit, tell, ask, ◌>>=◌, ◌>>◌,
}
use computer_networks_lab.Lab.Opening.{error, checked}

-- argv[1] of a server.
abbrev pub service : List Bytes → Bytes
service (name ∷ port ∷ rest) = port
service argv = []

abbrev usage : {A : Type 0} → Bytes → Program A
usage name = tell (Call.stderr (codes "usage: " ++ name ++ codes " <ip> <port>\n")) >> exit 1

-- `if (argc != 3)` of a client.
abbrev pub client_arguments : List Bytes → Program (Bytes × Bytes)
client_arguments (name ∷ host ∷ port ∷ []) = return (host, port)
client_arguments (name ∷ rest) = usage name
client_arguments [] = usage []

module _ (kernel : Kernel) (gai_strerror : Bytes) (ntop : Bytes → Bytes) where
  -- `if (n != 0)` after getaddrinfo, and the first address.
  abbrev pub addresses : Answer → Program Bytes
  addresses failed =
      tell (Call.stderr (codes "getaddrinfo: " ++ gai_strerror ++ codes "\n")) >> exit 1
  addresses (result n address) = return address

  abbrev pub connected : Bytes → Call
  connected address = Call.printf (codes "Connected to " ++ ntop address ++ codes "!\n")

  -- A server up to its bound socket.
  unfoldable pub bind_server : List Bytes → Program ℕ
  bind_server argv = do
    address ← ask kernel (Call.getaddrinfo [] (service argv)) >>= addresses
    fd ← checked kernel 1 (codes "server: socket") (Call.socket stream)
    _ ← checked kernel 1 (codes "setsockopt") (Call.setsockopt fd)
    _ ← checked kernel 1 (codes "server: bind") (Call.bind_to fd address)
    return fd

  -- A TCP server up to its loop. The test after listen looks at the result of bind, which is not -1
  -- there.
  unfoldable pub open_server : List Bytes → Program ℕ
  unfolding bind_server
  open_server argv = do
    fd ← bind_server argv
    tell (Call.listen fd 5)
    tell (Call.printf (codes "Waiting for connections...\n"))
    return fd

  abbrev pub accepted : Answer → Program ℕ
  accepted failed = error 1 (codes "accept")
  accepted (result new address) = tell (connected address) >> return new

  -- accept, and the print of the address.
  unfoldable pub accept_next : ℕ → Program ℕ
  accept_next fd = ask kernel (Call.accept fd) >>= accepted

  -- A client up to its connection.
  unfoldable pub open_client : List Bytes → Program ℕ
  open_client argv = do
    (host, port) ← client_arguments argv
    address ← ask kernel (Call.getaddrinfo host port) >>= addresses
    fd ← checked kernel 1 (codes "socket") (Call.socket stream)
    _ ← checked kernel 1 (codes "connect") (Call.connect_to fd address)
    tell (connected address)
    return fd
