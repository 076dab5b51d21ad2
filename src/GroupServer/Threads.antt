-- ===== src/GroupServer/Threads.antt =====
-- The threads of week0/beej/group_chat/server.c: main, and one `hear_all` for each client, in any
-- order of their steps. `shouting` is the mutex. A step is an access to the shared table, to the
-- mutex or to a socket; main writes its entry, greets and creates the thread in one step, which no
-- other thread can tell apart, and counts the client in a step of its own.
pub mod History
pub mod Invariant
pub mod Steps
pub mod Joining
pub mod Shouting
pub mod Saying
pub mod Atomic
pub mod Faults
pub mod Inbox
pub mod Sequential
pub mod Release
pub mod Frames
use computer_networks_lab.Prelude.{
  ℕ, ◌+◌, ◌≤◌, ◌<◌, ◌≡◌, Option, none, some, List, [], ◌∷◌, ◌++◌, ◌==◌, ltb, leb, if◌then◌else◌,
  length, get_elem?,
}
use computer_networks_lab.Libc.Text.{Bytes, c_string, store, memset, snprintf}
use computer_networks_lab.GroupServer.Table.{
  ◌>>=◌, buffer_len, Client, Server, Send, init, message, accept_client,
}

-- Where a thread of hear_all is: `shouting` is the test of the loop of shout, with the text, the
-- index and the buffer `msg`.
pub data Pc : Type 0 where
  unborn receiving locking : Pc
  shouting : (text : Bytes) (i : ℕ) (msg : Bytes) → Pc
  unlocking : Pc

pub record Hearer : Type 0 where
  pub id : ℕ
  pub sockfd : ℕ
  pub buffer : Bytes
  pub pc : Pc

pub data MainPc : Type 0 where
  accepting counting : MainPc

pub record System : Type 0 where
  pub server : Server
  pub main_pc : MainPc
  pub lock : Option ℕ
  pub hearers : ℕ → Hearer
  -- What shout has sent, and what main has, the oldest first.
  pub sends : List Send
  pub greetings : List Send

abbrev pub update : (ℕ → Hearer) → ℕ → Hearer → ℕ → Hearer
update f k x j = if j == k then x else f j

-- The process before main accepts.
unfoldable pub start : System
start = record {
  server = init;
  main_pc = accepting;
  lock = none;
  hearers = λ k. record { id = 0; sockfd = 0; buffer = []; pc = unborn };
  sends = [];
  greetings = [];
}

-- `msg_len` of shout, and what it asks malloc for.
abbrev pub msg_len : Bytes → ℕ
msg_len text = length text + 10

abbrev pub malloc_size : Bytes → ℕ
malloc_size text = msg_len text

-- One round of the loop of shout, which reads client_id anew: the next place of the thread, and what
-- it has sent. `none` is an access outside the table, or outside the memory of `msg`, of which send
-- and memset access the first msg_len bytes, and snprintf no more.
unfoldable pub shout_round : Server → ℕ → Bytes → ℕ → Bytes → Option (Pc × List Send)
shout_round s id text i msg =
    let written = snprintf msg (msg_len text) (message id text) in
    if ltb i s.client_id
    then (if i == id
        then some (shouting text (i + 1) msg, [])
        else (get_elem? s.clients i >>= λ c.
            if leb (msg_len text) (length msg)
            then some (
              shouting text (i + 1) (memset written 0 (msg_len text)),
              record { to = c.sockfd; bytes = written } ∷ [],
            )
            else none))
    else some (unlocking, [])

pub data Next : Type 0 where
  goes : System → Next
  exits : (status : ℕ) → Next
  faults : Next

abbrev pub moved : System → ℕ → Pc → System
moved s k pc = record s { hearers = update s.hearers k (record (s.hearers k) { pc = pc }) }

pub data Step (s : System) : Next → Type 0 where
  -- accept has given a socket: the entry, the greeting and the thread `k`.
  main_accept :
      (k newsockfd : ℕ) (auth buffer : Bytes) (t : Server) (greeting : Send) (client : Client)
      → s.main_pc ≡ accepting
      → (s.hearers k).pc ≡ unborn
      → length buffer ≡ buffer_len
      → accept_client s.server newsockfd auth ≡ some (t, greeting, client)
      → Step s (
          goes (record s {
            server = record { clients = t.clients; client_id = s.server.client_id };
            main_pc = counting;
            hearers = update s.hearers k (record {
              id = client.id;
              sockfd = client.sockfd;
              buffer = buffer;
              pc = receiving;
            });
            greetings = s.greetings ++ greeting ∷ [];
          }))
  main_count :
      s.main_pc ≡ counting
      → Step s (
          goes (record s {
            server = record s.server { client_id = s.server.client_id + 1 };
            main_pc = accepting;
          }))
  accept_fails : s.main_pc ≡ accepting → Step s (exits 1)
  accept_outside :
      (newsockfd : ℕ) (auth : Bytes)
      → s.main_pc ≡ accepting
      → accept_client s.server newsockfd auth ≡ none
      → Step s faults
  hear_recv :
      (k : ℕ) (bytes : Bytes)
      → (length bytes ≤ buffer_len) × (length bytes ≤ length (s.hearers k).buffer)
      → (s.hearers k).pc ≡ receiving
      → Step s (
          goes (record s {
            hearers =
                update s.hearers k (record (s.hearers k) {
                  buffer = store bytes (s.hearers k).buffer;
                  pc = locking;
                });
          }))
  -- recv writes past the end of the buffer.
  recv_outside :
      (k : ℕ) (bytes : Bytes)
      → length bytes ≤ buffer_len
      → length (s.hearers k).buffer < length bytes
      → (s.hearers k).pc ≡ receiving
      → Step s faults
  recv_fails : (k : ℕ) → (s.hearers k).pc ≡ receiving → Step s (exits 1)
  -- pthread_mutex_lock, strlen of the buffer, and malloc and memset of `msg`.
  hear_lock :
      (k : ℕ) (text msg : Bytes)
      → (s.hearers k).pc ≡ locking
      → s.lock ≡ none
      → c_string (s.hearers k).buffer ≡ some text
      → length msg ≡ malloc_size text
      → msg_len text ≤ length msg
      → Step s (
          goes
            (record (moved s k (shouting text 0 (memset msg 0 (msg_len text)))) { lock = some k }))
  strlen_outside :
      (k : ℕ)
      → (s.hearers k).pc ≡ locking
      → s.lock ≡ none
      → c_string (s.hearers k).buffer ≡ none
      → Step s faults
  -- memset writes past the end of `msg`.
  memset_outside :
      (k : ℕ) (text msg : Bytes)
      → (s.hearers k).pc ≡ locking
      → s.lock ≡ none
      → c_string (s.hearers k).buffer ≡ some text
      → length msg ≡ malloc_size text
      → length msg < msg_len text
      → Step s faults
  hear_shout :
      (k i : ℕ) (text msg : Bytes) (pc : Pc) (out : List Send)
      → (s.hearers k).pc ≡ shouting text i msg
      → shout_round s.server (s.hearers k).id text i msg ≡ some (pc, out)
      → Step s (goes (record (moved s k pc) { sends = s.sends ++ out }))
  shout_outside :
      (k i : ℕ) (text msg : Bytes)
      → (s.hearers k).pc ≡ shouting text i msg
      → shout_round s.server (s.hearers k).id text i msg ≡ none
      → Step s faults
  hear_unlock :
      (k : ℕ)
      → (s.hearers k).pc ≡ unlocking
      → Step s (goes (record (moved s k receiving) { lock = none }))

pub data Reach (init : System) : System → Type 0 where
  here : Reach init init
  next : {s t : System} → Reach init s → Step s (goes t) → Reach init t
