-- ===== src/Lab/Runs.antt =====
-- The greeting programs of week0/q1/tcp when no call fails: what is called, in which order, and
-- what the two ends print.
use computer_networks_lab.Prelude.{ℕ, List, [], ◌∷◌, ◌++◌, ◌≡◌, ◌≤◌, arith, length}
use computer_networks_lab.Libc.Text.{Bytes, codes, IsText, c_string-cleared_text}
use computer_networks_lab.Libc.Input.{take_line, take_line-IsText, length-take_line, c_string-fgets}
use computer_networks_lab.Libc.Port.{atoi, htons}
use computer_networks_lab.Os.{Call, stream, result, Kernel, done}
use computer_networks_lab.Lab.Opening.{buffer_size, empty_buffer, accept_one, connect_one}
use computer_networks_lab.Lab.Greeting.{ack, answer, server, show_ack, send_line, client}

-- A kernel on which the server's calls succeed, and its read gives `bytes`.
pub record Serves (kernel : Kernel) (fd new : ℕ) (bytes : Bytes) : Type 0 where
  pub opens : (calls : List Call) → kernel (Call.socket stream ∷ calls) ≡ result fd []
  pub binds : (port : Bytes) (calls : List Call) → kernel (Call.bind fd port ∷ calls) ≡ result 0 []
  pub accepts : (calls : List Call) → kernel (Call.accept fd ∷ calls) ≡ result new []
  pub reads : (calls : List Call) → kernel (Call.read new 255 ∷ calls) ≡ result (length bytes) bytes
  pub writes :
      (reply : Bytes) (calls : List Call)
      → kernel (Call.write new reply ∷ calls) ≡ result (length reply) []

-- A kernel on which the client's calls succeed: the user types `input`, and the read gives `bytes`.
pub record Connects (kernel : Kernel) (fd : ℕ) (address input bytes : Bytes) : Type 0 where
  pub opens : (calls : List Call) → kernel (Call.socket stream ∷ calls) ≡ result fd []
  pub resolves :
      (host : Bytes) (calls : List Call)
      → kernel (Call.gethostbyname host ∷ calls) ≡ result 0 address
  pub connects :
      (port : Bytes) (calls : List Call)
      → kernel (Call.connect fd address port ∷ calls) ≡ result 0 []
  pub types : (calls : List Call) → kernel (Call.stdin 255 ∷ calls) ≡ result 0 input
  pub writes :
      (line : Bytes) (calls : List Call)
      → kernel (Call.write fd line ∷ calls) ≡ result (length line) []
  pub reads : (calls : List Call) → kernel (Call.read fd 255 ∷ calls) ≡ result (length bytes) bytes

-- The calls of the server, the newest first.
abbrev pub server_calls : ℕ → ℕ → Bytes → Bytes → List Call
server_calls fd new port message =
    Call.write new ack
    ∷ Call.printf (codes "Here is the message: " ++ message ++ codes "\n")
    ∷ Call.read new 255
    ∷ Call.accept fd
    ∷ Call.printf (codes "Waiting for client to connect...\n")
    ∷ Call.listen fd 5
    ∷ Call.bind fd (htons (atoi port))
    ∷ Call.socket stream
    ∷ []

-- When no call fails, the server binds before it listens and accepts, reads one message, prints it
-- whole and acknowledges it, and main returns 0. The message is a text of at most 255 bytes.
server_run :
    (kernel : Kernel) (fd new : ℕ) (name port message : Bytes)
    → Serves kernel fd new message
    → IsText message
    → length message ≤ 255
    → server kernel (name ∷ port ∷ []) [] ≡ (server_calls fd new port message, done 0)
unfolding server accept_one answer
server_run kernel fd new name port message k text short =
    rw (k.opens, k.binds, k.accepts, k.reads)
      (rw (c_string-cleared_text message buffer_size text (omega arith), k.writes))

abbrev pub client_calls : ℕ → Bytes → Bytes → Bytes → Bytes → Bytes → List Call
client_calls fd address host port line reply =
    Call.printf (reply ++ codes "\n")
    ∷ Call.read fd 255
    ∷ Call.write fd line
    ∷ Call.stdin 255
    ∷ Call.printf (codes "Please enter the message: ")
    ∷ Call.connect fd address (htons (atoi port))
    ∷ Call.gethostbyname host
    ∷ Call.socket stream
    ∷ []

-- When no call fails, the client sends what the user types up to the end of the line or 254 bytes,
-- prints the reply whole, and main returns 0. Both are texts, and the reply has at most 255 bytes.
pub client_run :
    (kernel : Kernel) (fd x : ℕ) (name host port address input reply : Bytes)
    → Connects kernel fd address (x ∷ input) reply
    → IsText (x ∷ input)
    → IsText reply
    → length reply ≤ 255
    → client kernel (name ∷ host ∷ port ∷ []) []
      ≡ (client_calls fd address host port (take_line 254 (x ∷ input)).0 reply, done 0)
unfolding client connect_one send_line show_ack
client_run kernel fd x name host port address input reply k typed text short =
    rw (k.opens, k.resolves, k.connects, k.types)
      (rw (c_string-fgets empty_buffer 255 x input typed, k.writes, k.reads)
        (rw (c_string-cleared_text reply buffer_size text (omega arith))))

-- The two programs together, if no call fails, the server's read gives the string that the client
-- wrote, the client's read the acknowledgement that the server wrote, each in one piece, and the input
-- is not empty and holds no NUL: the server prints the line typed at the client, or its first 254 bytes
-- if it is longer, and the client prints the acknowledgement. These are the calls of both, in order.
pub greeting_exchange :
    (k l : Kernel) (fd new cfd x : ℕ) (port host address input : Bytes)
    → Serves k fd new (take_line 254 (x ∷ input)).0
    → Connects l cfd address (x ∷ input) ack
    → IsText (x ∷ input)
    → (server k (codes "server" ∷ port ∷ []) []
        ≡ (server_calls fd new port (take_line 254 (x ∷ input)).0, done 0))
      × (client l (codes "client" ∷ host ∷ port ∷ []) []
          ≡ (client_calls cfd address host port (take_line 254 (x ∷ input)).0 ack, done 0))
greeting_exchange k l fd new cfd x port host address input s c text = (
  server_run k fd new _ port _ s (take_line-IsText 254 (x ∷ input) text)
      (omega (arith, length-take_line 254 (x ∷ input))),
  client_run l cfd x _ host port address input ack c text (omega arith) (omega arith),
)
