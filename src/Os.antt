-- ===== src/Os.antt =====
-- Programs that call the kernel: the sockets, standard input and output of the mains of week0/.
--
-- A kernel is any function from the calls made so far, the newest first, to the answer of the
-- newest. A program takes the calls made before it and gives those made when it stops, and how it
-- stops. So an order of calls is an order in the list.
use computer_networks_lab.Prelude.{ℕ, List, ◌∷◌, Option, none, some}
use computer_networks_lab.Libc.Text.{Bytes}

pub data Kind : Type 0 where
  stream datagram : Kind

-- The calls. A port is the two bytes of sin_port, and an address what name resolution gave.
pub data Call : Type 0 where
  socket : Kind → Call
  gethostbyname : (host : Bytes) → Call
  getaddrinfo : (host service : Bytes) → Call
  setsockopt : (fd : ℕ) → Call
  bind : (fd : ℕ) (port : Bytes) → Call
  bind_to : (fd : ℕ) (address : Bytes) → Call
  connect : (fd : ℕ) (address port : Bytes) → Call
  connect_to : (fd : ℕ) (address : Bytes) → Call
  listen : (fd backlog : ℕ) → Call
  accept : (fd : ℕ) → Call
  fork : Call
  read : (fd count : ℕ) → Call
  write : (fd : ℕ) (bytes : Bytes) → Call
  recvfrom : (fd count : ℕ) → Call
  sendto : (fd : ℕ) (bytes address port : Bytes) → Call
  reply_to : (fd : ℕ) (bytes : Bytes) → Call
  close : (fd : ℕ) → Call
  -- send, where the program does not look at the result.
  send : (fd : ℕ) (bytes : Bytes) → Call
  pthread_mutex_init : Call
  -- The thread is given an entry of the table of clients.
  pthread_create : (id sockfd : ℕ) → Call
  localtime : Call
  stdin : (count : ℕ) → Call
  printf : (text : Bytes) → Call
  stderr : (text : Bytes) → Call
  perror : (text : Bytes) → Call

-- `failed` is a negative result, NULL of a name resolution, or a result of pthread_mutex_init other
-- than 0. Otherwise the result and the bytes
-- that came with it.
pub data Answer : Type 0 where
  failed : Answer
  result : (n : ℕ) (bytes : Bytes) → Answer

abbrev pub Kernel : Type 0
Kernel = List Call → Answer

-- `faulted` is an access outside a buffer.
pub data Outcome (A : Type 0) : Type 0 where
  done : A → Outcome A
  exited : (status : ℕ) → Outcome A
  faulted : Outcome A

abbrev pub Program : Type 0 → Type 0
Program A = List Call → List Call × Outcome A

abbrev pub continue :
    {A B : Type 0} → List Call × Outcome A → (A → Program B) → List Call × Outcome B
continue (calls, done a) f = f a calls
continue (calls, exited status) f = (calls, exited status)
continue (calls, faulted) f = (calls, faulted)

infixl 5 ◌>>=◌ ◌>>◌
abbrev pub ◌>>=◌ : {A B : Type 0} → Program A → (A → Program B) → Program B
◌>>=◌ m f calls = continue (m calls) f

abbrev pub ◌>>◌ : {B : Type 0} → Program (Unit {0}) → Program B → Program B
m >> k = m >>= λ _. k

abbrev pub return : {A : Type 0} → A → Program A
return a calls = (calls, done a)

abbrev pub exit : {A : Type 0} → ℕ → Program A
exit status calls = (calls, exited status)

-- An output, or a call whose result the program does not look at.
abbrev pub tell : Call → Program (Unit {0})
tell c calls = (c ∷ calls, done tt)

abbrev pub ask : Kernel → Call → Program Answer
ask kernel c calls = (c ∷ calls, done (kernel (c ∷ calls)))

-- What a program prints from a buffer; reading past its end is a fault.
abbrev pub need : {A : Type 0} → Option A → Program A
need none calls = (calls, faulted)
need (some a) calls = (calls, done a)
