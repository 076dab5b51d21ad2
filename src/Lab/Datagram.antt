-- ===== src/Lab/Datagram.antt =====
-- week0/q1/udp: the client sends a datagram to say where it is, and the server answers with a
-- greeting.
use computer_networks_lab.Prelude.{
  append-nil, ℕ, List, [], ◌∷◌, ◌++◌, ◌≡◌, refl, length, none, arith, ◌∙◌, ap,
}
use computer_networks_lab.Libc.Text.{
  Bytes, codes, store, c_string, IsText, store_all, c_string-text,
}
use computer_networks_lab.Libc.Port.{atoi, htons}
use computer_networks_lab.Os.{
  Call, datagram, result, Kernel, Program, return, tell, ask, need, done, faulted, ◌>>=◌, ◌>>◌,
}
use computer_networks_lab.Lab.Opening.{
  buffer_size, empty_buffer, checked, port_argument, host_arguments, resolved, filled,
}

abbrev pub hello : Bytes
hello = codes "Hello Client!"

-- main of server.c. The greeting is sent without its NUL.
unfoldable pub udp_server : Kernel → List Bytes → Program ℕ
unfolding store c_string
udp_server kernel argv = do
  port ← port_argument argv
  fd ← checked kernel 1 (codes "ERROR opening socket") (Call.socket datagram)
  _ ← checked kernel 1 (codes "ERROR on binding") (Call.bind fd (htons (atoi port)))
  _ ← checked kernel 1 (codes "ERROR recieving message from client") (Call.recvfrom fd 2)
  text ← need (c_string (store hello empty_buffer))
  _ ← checked kernel 1 (codes "ERROR sending greeting to client") (Call.reply_to fd text)
  tell (Call.printf (codes "Sent greeting to client!\n"))
  tell (Call.close fd)
  return 0

-- char buffer[BUFFER_SIZE] = "I am client"
abbrev pub client_buffer : Bytes
client_buffer = store (codes "I am client") empty_buffer

-- main of client.c after its sendto.
unfoldable pub show_greeting : Kernel → ℕ → Program ℕ
unfolding store c_string
show_greeting kernel fd = do
  answer ← ask kernel (Call.recvfrom fd buffer_size)
  buffer ← filled 0 (codes "ERROR recieving greeting from server") client_buffer answer
  text ← need (c_string buffer)
  tell (Call.printf (text ++ codes "\n"))
  tell (Call.close fd)
  return 0

-- main of client.c
unfoldable pub udp_client : Kernel → List Bytes → Program ℕ
unfolding show_greeting
udp_client kernel argv = do
  (host, port) ← host_arguments argv
  fd ← checked kernel 0 (codes "ERROR opening socket") (Call.socket datagram)
  address ← resolved kernel host
  _ ←
      checked kernel 0 (codes "ERROR sending message to server")
        (Call.sendto fd (codes "1" ++ 0 ∷ []) address (htons (atoi port)))
  show_greeting kernel fd

-- The calls of the server succeed.
pub record Greets (kernel : Kernel) (fd : ℕ) : Type 0 where
  pub opens : (calls : List Call) → kernel (Call.socket datagram ∷ calls) ≡ result fd []
  pub binds : (port : Bytes) (calls : List Call) → kernel (Call.bind fd port ∷ calls) ≡ result 0 []
  pub receives :
      (calls : List Call) → kernel (Call.recvfrom fd 2 ∷ calls) ≡ result 2 (codes "1" ++ 0 ∷ [])
  pub replies :
      (text : Bytes) (calls : List Call)
      → kernel (Call.reply_to fd text ∷ calls) ≡ result (length text) []

-- The calls of the client succeed, and it receives `bytes`.
pub record Hears (kernel : Kernel) (fd : ℕ) (address bytes : Bytes) : Type 0 where
  pub opens : (calls : List Call) → kernel (Call.socket datagram ∷ calls) ≡ result fd []
  pub resolves :
      (host : Bytes) (calls : List Call)
      → kernel (Call.gethostbyname host ∷ calls) ≡ result 0 address
  pub sends :
      (text port : Bytes) (calls : List Call)
      → kernel (Call.sendto fd text address port ∷ calls) ≡ result (length text) []
  pub receives :
      (calls : List Call)
      → kernel (Call.recvfrom fd buffer_size ∷ calls) ≡ result (length bytes) bytes

abbrev pub udp_server_calls : ℕ → Bytes → List Call
udp_server_calls fd port =
    Call.close fd
    ∷ Call.printf (codes "Sent greeting to client!\n")
    ∷ Call.reply_to fd hello
    ∷ Call.recvfrom fd 2
    ∷ Call.bind fd (htons (atoi port))
    ∷ Call.socket datagram
    ∷ []

-- The calls of the client before it shows what it received.
abbrev pub udp_client_asks : ℕ → Bytes → Bytes → Bytes → List Call
udp_client_asks fd address host port =
    Call.recvfrom fd buffer_size
    ∷ Call.sendto fd (codes "1" ++ 0 ∷ []) address (htons (atoi port))
    ∷ Call.gethostbyname host
    ∷ Call.socket datagram
    ∷ []

-- The server and the client of q1/udp together, when no call fails and the client receives the bytes
-- that the server sent: the client prints the greeting whole, although no NUL was sent with it.
pub datagram_exchange :
    (k l : Kernel) (fd cfd : ℕ) (port host address : Bytes)
    → Greets k fd
    → Hears l cfd address hello
    → (udp_server k (codes "server" ∷ port ∷ []) [] ≡ (udp_server_calls fd port, done 0))
      × (udp_client l (codes "client" ∷ host ∷ port ∷ []) [] ≡ (
        Call.close cfd ∷ Call.printf (hello ++ codes "\n") ∷ udp_client_asks cfd address host port,
        done 0,
      ))
unfolding udp_server udp_client show_greeting store c_string
datagram_exchange k l fd cfd port host address s c = (
  rw (s.opens, s.binds, s.receives, s.replies) refl,
  rw (c.opens, c.resolves, c.sends, c.receives) refl,
)

client_buffer-length : length client_buffer ≡ buffer_size
unfolding store
client_buffer-length = refl

c_string-full :
    (bytes : Bytes)
    → IsText bytes
    → length bytes ≡ buffer_size
    → c_string (store bytes client_buffer) ≡ none
c_string-full bytes text full =
    ap c_string
      (store_all bytes client_buffer (omega (arith, client_buffer-length, full)) ∙ append-nil bytes)
    ∙ c_string-text bytes text

-- The client of q1/udp receives up to the whole of its buffer: after a datagram of 256 bytes without
-- a NUL its printf reads past the end.
datagram_over_read :
    (l : Kernel) (cfd : ℕ) (host port address bytes : Bytes)
    → Hears l cfd address bytes
    → IsText bytes
    → length bytes ≡ buffer_size
    → udp_client l (codes "client" ∷ host ∷ port ∷ []) []
      ≡ (udp_client_asks cfd address host port, faulted)
unfolding udp_client show_greeting
datagram_over_read l cfd host port address bytes c text full =
    rw (c.opens, c.resolves, c.sends, c.receives) (rw (c_string-full bytes text full) refl)
