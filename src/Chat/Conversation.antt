-- ===== src/Chat/Conversation.antt =====
-- Two chats of week0/beej/chat/chat.c that are connected: the one of chat/server.c and the one of
-- chat/client.c. No call fails, standard input does not end, and each frame that is sent arrives whole
-- in one read.
use computer_networks_lab.Prelude.{◌≡◌, ◌≢◌, ◌≤◌, Option, none, some, List, [], ◌∷◌, ◌++◌, length}
use computer_networks_lab.Libc.Text.{Bytes}
use computer_networks_lab.Chat.Threads.{
  buffer_len, recv_into, HearPc, TalkPc, Chat, Step, hear_test, hear_recv, hear_check, hear_print,
  hear_leave, talk_test, talk_read, talk_send, talk_send_fails, talk_check, talk_leave, main_step,
}
pub mod Flow
pub mod Speaking
pub mod Passing
pub mod Heard

-- `here` and `there`, and the frames that are under way to each, the oldest first.
pub record Conversation : Type 0 where
  pub here : Chat
  pub there : Chat
  pub incoming : List Bytes
  pub outgoing : List Bytes

-- The conversation from the other side.
abbrev pub flip : Conversation → Conversation
flip s = record { here = s.there; there = s.here; incoming = s.outgoing; outgoing = s.incoming }

-- A step of a chat that succeeds and leaves the sockets alone.
abbrev pub IsLocal : {show : Bytes → Option Bytes} {s t : Chat} → Step show s t → Type 0
IsLocal (hear_test e) = Unit
IsLocal (hear_recv result fits e) = ⊥
IsLocal (hear_check e) = Unit
IsLocal (hear_print e) = Unit
IsLocal (hear_leave e) = Unit
IsLocal (talk_test e) = Unit
IsLocal {s = s} (talk_read e) = s.input ≢ []
IsLocal (talk_send e) = ⊥
IsLocal (talk_send_fails e) = ⊥
IsLocal (talk_check e) = Unit
IsLocal (talk_leave e) = Unit
IsLocal main_step = Unit

-- A step of the chat that is here.
pub data HalfMove (show : Bytes → Option Bytes) (s : Conversation) : Conversation → Type 0 where
  works :
      {c : Chat} (st : Step show s.here c) → IsLocal st → HalfMove show s (record s { here = c })
  sends :
      s.here.talk_pc ≡ TalkPc.sending
      → HalfMove show s (record s {
        here = record s.here { talk_pc = TalkPc.checking; sent = s.here.talk_buffer ∷ s.here.sent };
        outgoing = s.outgoing ++ s.here.talk_buffer ∷ [];
      })
  hears :
      (frame : Bytes) (rest : List Bytes)
      → s.incoming ≡ frame ∷ rest
      → length frame ≤ buffer_len
      → s.here.hear_pc ≡ HearPc.receiving
      → HalfMove show s (record s {
        here = record s.here {
          hear_pc = HearPc.checking;
          hear_buffer = recv_into s.here.hear_buffer (some frame);
          received = frame ∷ s.here.received;
        };
        incoming = rest;
      })

module _ (show_here show_there : Bytes → Option Bytes) where
  pub data Move (s t : Conversation) : Type 0 where
    mine : HalfMove show_here s t → Move s t
    yours : HalfMove show_there (flip s) (flip t) → Move s t

  pub data Talks (init : Conversation) : Conversation → Type 0 where
    greeted : Talks init init
    then_moves : {s t : Conversation} → Talks init s → Move s t → Talks init t

-- Both sides have just begun.
abbrev pub both_open : Chat → Chat → Conversation
both_open here there = record { here = here; there = there; incoming = []; outgoing = [] }
