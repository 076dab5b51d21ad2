-- ===== src/GroupServer/Table.antt =====
-- The table `clients`, the body of the accept loop of main, `shout` and the body of the loop of
-- `hear_all`. `none` is an access outside the table or a read past the end of a buffer.
use computer_networks_lab.Prelude.{
  ℕ, zero, suc, ◌+◌, Option, none, some, List, [], ◌∷◌, ◌++◌, ◌==◌, if◌then◌else◌, length,
  get_elem?, set, replicate,
}
use computer_networks_lab.Libc.Text.{Bytes, codes, c_string, store, memset, snprintf}
use computer_networks_lab.Libc.Decimal.{decimal}

abbrev pub max_num_client : ℕ
max_num_client = 10

abbrev pub buffer_len : ℕ
buffer_len = 256

pub record Client : Type 0 where
  pub id : ℕ
  pub sockfd : ℕ

pub record Server : Type 0 where
  pub clients : List Client
  pub client_id : ℕ

-- A call of send: the socket and the bytes.
pub record Send : Type 0 where
  pub to : ℕ
  pub bytes : Bytes

infixl 5 ◌>>=◌
abbrev pub ◌>>=◌ {ℓ κ} : {A : Type ℓ} {B : Type κ} → Option A → (A → Option B) → Option B
none >>= f = none
some a >>= f = f a

-- The globals when main starts.
unfoldable pub init : Server
init = record { clients = replicate max_num_client (record { id = 0; sockfd = 0 }); client_id = 0 }

-- snprintf (auth, BUFFER_LEN, "You are Client%d\n", client_id)
unfoldable pub greeting : ℕ → Bytes → Bytes
greeting id auth = snprintf auth buffer_len (codes "You are Client" ++ decimal id ++ codes "\n")

-- The body of the loop of main after an accept that gave `newsockfd`: the new table, the greeting
-- that is sent, and the entry that the new thread is given. `auth` is not initialised.
unfoldable pub accept_client : Server → ℕ → Bytes → Option (Server × Send × Client)
unfolding greeting
accept_client s newsockfd auth = do
  old ← get_elem? s.clients s.client_id
  text ← c_string (greeting s.client_id auth)
  let client : Client = record old { sockfd = newsockfd; id = s.client_id }
  some (
    record { clients = set s.clients s.client_id client; client_id = s.client_id + 1 },
    record { to = newsockfd; bytes = text },
    client,
  )

-- "CLIENT%d: %s"
abbrev pub message : ℕ → Bytes → Bytes
message id text = codes "CLIENT" ++ (decimal id ++ (codes ": " ++ text))

abbrev pub add_send : Send → Option (List Send) → Option (List Send)
add_send x none = none
add_send x (some xs) = some (x ∷ xs)

module _ (clients : List Client) (cli_id : ℕ) (msg_len : ℕ) (text : Bytes) where
  -- The send to one client, with the message buffer before it.
  abbrev send_to : Bytes → Client → Send
  send_to msg c = record { to = c.sockfd; bytes = snprintf msg msg_len (message cli_id text) }

  -- The loop of `shout` from index `i`, with `n` rounds left. A round that sends clears the message
  -- buffer afterwards.
  unfoldable pub shout_from : ℕ → ℕ → Bytes → Option (List Send)
  shout_from zero i msg = some []
  shout_from (suc n) i msg =
      let skip = shout_from n (i + 1) msg in
      let rest =
        shout_from n (i + 1) (memset (snprintf msg msg_len (message cli_id text)) 0 msg_len) in
      if i == cli_id then skip else (do c ← get_elem? clients i; add_send (send_to msg c) rest)

-- shout (cli_id, buffer, strlen (buffer)); malloc gives `msg`, of msg_len bytes.
unfoldable pub shout : Server → ℕ → Bytes → Bytes → Option (List Send)
unfolding shout_from
shout s cli_id buffer msg = do
  text ← c_string buffer
  shout_from s.clients cli_id (length text + 10) text s.client_id 0
      (memset msg 0 (length text + 10))

pub data Round : Type 0 where
  exited : (status : ℕ) → Round
  faulted : Round
  heard : (buffer : Bytes) → List Send → Round

abbrev pub ended : Bytes → Option (List Send) → Round
ended buffer none = faulted
ended buffer (some sends) = heard buffer sends

-- One round of `hear_all` for client `id`: `none` is a recv that fails, and ends the process.
unfoldable pub hear_round : Server → ℕ → Bytes → Option Bytes → Bytes → Round
unfolding shout
hear_round s id buffer none msg = exited 1
hear_round s id buffer (some bytes) msg =
    ended (store bytes buffer) (shout s id (store bytes buffer) msg)
