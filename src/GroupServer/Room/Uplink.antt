-- ===== src/GroupServer/Room/Uplink.antt =====
-- The room of the group chat with what its clients send: each recv of hear_all takes the next frame
-- that talk of the client has sent. No send fails, and no fgets is at the end of its input.
use computer_networks_lab.Prelude.{ℕ, ◌≡◌, ◌≢◌, List, [], ◌∷◌, ◌++◌, ◌==◌, if◌then◌else◌}
use computer_networks_lab.Libc.Text.{Bytes}
use computer_networks_lab.Chat.Threads.{Chat}
use computer_networks_lab.Chat.Threads as Client
use computer_networks_lab.Chat.Programs.{GroupStep}
use computer_networks_lab.GroupServer.Threads.{
  System, Step, goes, main_accept, main_count, hear_recv, hear_lock, hear_shout, hear_unlock,
}
use computer_networks_lab.GroupServer.Room.{
  Room, backwards, RoomMove, serves, acts, welcomes, reads, empty_room,
}
pub mod Talking
pub mod Hearing
pub mod Serving
pub mod Seating
pub mod Linking
pub mod Sessions
pub mod Typed

-- `taken` has the frames that each thread of the server has received, the newest first.
pub record Session : Type 0 where
  pub room : Room
  pub taken : ℕ → List Bytes

-- A step of the server receives the next frame.
abbrev pub Fetches : (ℕ → Chat) → (ℕ → List Bytes) → {s t : System} → Step s (goes t) → Type 0
Fetches chats taken (main_accept k newsockfd auth buffer t greeting client idle fresh fills e) =
    Unit
Fetches chats taken (main_count e) = Unit
Fetches chats taken {s} (hear_recv k bytes fits at) =
    (rest : List Bytes) × (backwards (chats (s.hearers k).sockfd).sent
      ≡ backwards (taken k) ++ bytes ∷ rest)
Fetches chats taken (hear_lock k text msg at free read size room) = Unit
Fetches chats taken (hear_shout k i text msg pc out at e) = Unit
Fetches chats taken (hear_unlock k at) = Unit

-- A step of a client reads a line, and its send succeeds.
abbrev pub Sounds : {c d : Chat} → GroupStep c d → Type 0
Sounds (Client.hear_test e) = Unit
Sounds (Client.hear_recv result fits e) = Unit
Sounds (Client.hear_check e) = Unit
Sounds (Client.hear_print e) = Unit
Sounds (Client.hear_leave e) = Unit
Sounds (Client.talk_test e) = Unit
Sounds {c} (Client.talk_read e) = c.input ≢ []
Sounds (Client.talk_send e) = Unit
Sounds (Client.talk_send_fails e) = ⊥
Sounds (Client.talk_check e) = Unit
Sounds (Client.talk_leave e) = Unit
Sounds Client.main_step = Unit

abbrev pub Admits : (ℕ → List Bytes) → {r q : Room} → RoomMove r q → Type 0
Admits taken {r} (serves st) = Fetches r.chats taken st
Admits taken (acts fd st apart) = Sounds st
Admits taken (welcomes fd bytes e fresh at) = Unit
Admits taken (reads fd frame rest e fits g at) = Unit

abbrev pub taking : (ℕ → List Bytes) → ℕ → Bytes → ℕ → List Bytes
taking taken k bytes j = if j == k then bytes ∷ taken j else taken j

abbrev pub after_fetch : (ℕ → List Bytes) → {s t : System} → Step s (goes t) → ℕ → List Bytes
after_fetch taken (main_accept k newsockfd auth buffer t greeting client idle fresh fills e) = taken
after_fetch taken (main_count e) = taken
after_fetch taken (hear_recv k bytes fits at) = taking taken k bytes
after_fetch taken (hear_lock k text msg at free read size room) = taken
after_fetch taken (hear_shout k i text msg pc out at e) = taken
after_fetch taken (hear_unlock k at) = taken

abbrev pub after_move : (ℕ → List Bytes) → {r q : Room} → RoomMove r q → ℕ → List Bytes
after_move taken (serves st) = after_fetch taken st
after_move taken (acts fd st apart) = taken
after_move taken (welcomes fd bytes e fresh at) = taken
after_move taken (reads fd frame rest e fits g at) = taken

pub data SessionMove (x : Session) : Session → Type 0 where
  admits :
      {q : Room} (m : RoomMove x.room q)
      → Admits x.taken m
      → SessionMove x (record { room = q; taken = after_move x.taken m })

pub data Meets (init : Session) : Session → Type 0 where
  convened : Meets init init
  continues : {x y : Session} → Meets init x → SessionMove x y → Meets init y

-- Nobody has been accepted, read or typed anything.
abbrev pub first_session : (hear_buffer talk_buffer input : ℕ → Bytes) → Session
first_session hear_buffer talk_buffer input = record {
  room = empty_room hear_buffer talk_buffer input;
  taken = λ k. [];
}
