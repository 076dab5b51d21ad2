-- ===== src/Lab/Opening.antt =====
-- What the TCP servers and clients of week0/q1, q2 and q3 have in common: the arguments, the socket,
-- the address, and the connection. `error` prints a message and ends the process, with status 1 in
-- a server and 0 in a client.
use computer_networks_lab.Prelude.{ℕ, List, [], ◌∷◌, ◌++◌, replicate, ◌≡◌, ◌≤◌, length}
use computer_networks_lab.Libc.Text.{Bytes, codes, store}
use computer_networks_lab.Libc.Port.{atoi, htons}
use computer_networks_lab.Os.{
  stream, Call, Answer, failed, result, Kernel, Program, ◌>>=◌, ◌>>◌, return, exit, tell, ask,
}

abbrev pub buffer_size : ℕ
buffer_size = 256

-- char buffer[BUFFER_SIZE] = {0}, also after bzero (buffer, 256)
abbrev pub empty_buffer : Bytes
empty_buffer = replicate buffer_size 0

abbrev pub error : {A : Type 0} → ℕ → Bytes → Program A
error status text = tell (Call.perror text) >> exit status

-- `if (n < 0) error (text)`
abbrev pub check : ℕ → Bytes → Answer → Program ℕ
check status text failed = error status text
check status text (result n bytes) = return n

-- A call whose negative result is an error.
abbrev pub checked : Kernel → ℕ → Bytes → Call → Program ℕ
checked kernel status text call = ask kernel call >>= check status text

-- `if (argc < 2)` of the servers, and argv[1].
abbrev pub port_argument : List Bytes → Program Bytes
port_argument (name ∷ port ∷ rest) = return port
port_argument _ = tell (Call.stderr (codes "ERROR, no port provided\n")) >> exit 1

-- A server up to its accepted connection: the new socket.
unfoldable pub accept_one : Kernel → List Bytes → Program ℕ
accept_one kernel argv = do
  port ← port_argument argv
  fd ← checked kernel 1 (codes "ERROR opening socket") (Call.socket stream)
  _ ← checked kernel 1 (codes "ERROR on binding") (Call.bind fd (htons (atoi port)))
  tell (Call.listen fd 5)
  tell (Call.printf (codes "Waiting for client to connect...\n"))
  checked kernel 1 (codes "ERROR on accept") (Call.accept fd)

-- `if (argc < 3)` of the clients, argv[1] and argv[2].
abbrev pub host_arguments : List Bytes → Program (Bytes × Bytes)
host_arguments (name ∷ host ∷ port ∷ rest) = return (host, port)
host_arguments (name ∷ rest) =
    tell (Call.stderr (codes "usage " ++ name ++ codes " hostname port\n")) >> exit 0
host_arguments [] = tell (Call.stderr (codes "usage  hostname port\n")) >> exit 0

-- `if (server == NULL)`, and the address of the host.
abbrev pub host_address : Answer → Program Bytes
host_address failed = tell (Call.stderr (codes "ERROR, no such host\n")) >> exit 0
host_address (result n address) = return address

abbrev pub resolved : Kernel → Bytes → Program Bytes
resolved kernel host = ask kernel (Call.gethostbyname host) >>= host_address

-- A client up to its connection: the socket.
unfoldable pub connect_one : Kernel → List Bytes → Program ℕ
connect_one kernel argv = do
  (host, port) ← host_arguments argv
  fd ← checked kernel 0 (codes "ERROR opening socket") (Call.socket stream)
  address ← resolved kernel host
  _ ← checked kernel 0 (codes "ERROR connecting") (Call.connect fd address (htons (atoi port)))
  return fd

-- The buffer after a call that fills it, with the message of its failure.
abbrev pub filled : ℕ → Bytes → Bytes → Answer → Program Bytes
filled status text buffer failed = error status text
filled status text buffer (result n bytes) = return (store bytes buffer)

-- n = read (fd, buffer, count); if (n < 0) error (…)
abbrev pub read_into : Kernel → ℕ → Bytes → ℕ → ℕ → Program Bytes
read_into kernel status buffer fd count =
    ask kernel (Call.read fd count) >>= filled status (codes "ERROR reading from socket") buffer

-- read and recvfrom store at most the bytes that they are asked for.
pub record Bounded (kernel : Kernel) : Type 0 where
  pub read_bounded :
      (fd count n : ℕ) (bytes : Bytes) (calls : List Call)
      → kernel (Call.read fd count ∷ calls) ≡ result n bytes
      → length bytes ≤ count
  pub recvfrom_bounded :
      (fd count n : ℕ) (bytes : Bytes) (calls : List Call)
      → kernel (Call.recvfrom fd count ∷ calls) ≡ result n bytes
      → length bytes ≤ count
