-- ===== src/GroupServer/Room.antt =====
-- The whole group chat of week0/beej/group_chat: the process of server.c, and for each of its sockets
-- the chat of the client behind it, chat.c. The first that a client receives is its greeting, which
-- has no NUL, then come the messages. A message arrives whole in one read, if it fits the buffer, and
-- so does the greeting; a longer message is not read here. What hear_all receives may be anything.
use computer_networks_lab.Prelude.{
  ℕ, ◌≤◌, ◌≡◌, Bool, true, false, Option, some, List, [], ◌∷◌, ◌++◌, length, ◌==◌, if◌then◌else◌,
}
use computer_networks_lab.Libc.Text.{Bytes}
use computer_networks_lab.Chat.Threads.{
  buffer_len, recv_into, HearPc, Chat, open_chat, hear_test, hear_recv, hear_check, hear_print,
  hear_leave, talk_test, talk_read, talk_send, talk_send_fails, talk_check, talk_leave, main_step,
}
use computer_networks_lab.Chat.Programs.{GroupStep}
use computer_networks_lab.GroupServer.Threads.{System, start, Step, goes}
use computer_networks_lab.GroupServer.Threads.Inbox.{inbox}
pub mod Reading
pub mod Printing
pub mod Everyone
pub mod Uplink

-- The chats are numbered by the sockets of the server. `greeted` says which of them have received
-- their greeting; the log `received` of a chat has the messages.
pub record Room : Type 0 where
  pub system : System
  pub chats : ℕ → Chat
  pub greeted : ℕ → Bool

abbrev pub seat : (ℕ → Chat) → ℕ → Chat → ℕ → Chat
seat chats fd c j = if j == fd then c else chats j

-- A list whose newest element is first, in the order of time.
abbrev pub backwards : List Bytes → List Bytes
backwards [] = []
backwards (x ∷ xs) = backwards xs ++ x ∷ []

-- Any step of a chat but a read of its socket.
abbrev pub IsApart : {s t : Chat} → GroupStep s t → Type 0
IsApart (hear_test e) = Unit
IsApart (hear_recv result fits e) = ⊥
IsApart (hear_check e) = Unit
IsApart (hear_print e) = Unit
IsApart (hear_leave e) = Unit
IsApart (talk_test e) = Unit
IsApart (talk_read e) = Unit
IsApart (talk_send e) = Unit
IsApart (talk_send_fails e) = Unit
IsApart (talk_check e) = Unit
IsApart (talk_leave e) = Unit
IsApart main_step = Unit

-- recv of the greeting.
abbrev pub take_greeting : Chat → Bytes → Chat
take_greeting m bytes = record m {
  hear_pc = HearPc.checking;
  hear_buffer = recv_into m.hear_buffer (some bytes);
}

abbrev pub mark : (ℕ → Bool) → ℕ → ℕ → Bool
mark greeted fd j = if j == fd then true else greeted j

-- recv of the next frame that has been sent to this chat.
abbrev pub take_frame : Chat → Bytes → Chat
take_frame m frame = record m {
  hear_pc = HearPc.checking;
  hear_buffer = recv_into m.hear_buffer (some frame);
  received = frame ∷ m.received;
}

pub data RoomMove (r : Room) : Room → Type 0 where
  serves : {t : System} → Step r.system (goes t) → RoomMove r (record r { system = t })
  acts :
      {c : Chat} (fd : ℕ) (st : GroupStep (r.chats fd) c)
      → IsApart st
      → RoomMove r (record r { chats = seat r.chats fd c })
  welcomes :
      (fd : ℕ) (bytes : Bytes)
      → inbox fd r.system.greetings ≡ bytes ∷ []
      → r.greeted fd ≡ false
      → (r.chats fd).hear_pc ≡ HearPc.receiving
      → RoomMove r (record r {
        chats = seat r.chats fd (take_greeting (r.chats fd) bytes);
        greeted = mark r.greeted fd;
      })
  reads :
      (fd : ℕ) (frame : Bytes) (rest : List Bytes)
      → inbox fd r.system.sends ≡ backwards (r.chats fd).received ++ frame ∷ rest
      → length frame ≤ buffer_len
      → r.greeted fd ≡ true
      → (r.chats fd).hear_pc ≡ HearPc.receiving
      → RoomMove r (record r { chats = seat r.chats fd (take_frame (r.chats fd) frame) })

pub data Gathers (init : Room) : Room → Type 0 where
  opens : Gathers init init
  goes_on : {r q : Room} → Gathers init r → RoomMove r q → Gathers init q

-- Nobody has been accepted, and nobody has read anything, whatever the buffers hold.
abbrev pub empty_room : (hear_buffer talk_buffer input : ℕ → Bytes) → Room
empty_room hear_buffer talk_buffer input = record {
  system = start;
  chats = λ fd. open_chat (hear_buffer fd) (talk_buffer fd) (input fd);
  greeted = λ fd. false;
}
