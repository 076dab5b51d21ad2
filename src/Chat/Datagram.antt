-- ===== src/Chat/Datagram.antt =====
-- The threads of week0/beej/chat/udp/chat.c, with the address `peer` that both share: recvfrom stores
-- the sender of each datagram there, and sendto reads it. The sockets are those that chat.c is written
-- for, where a datagram has a sender; its mains open others.
use computer_networks_lab.Prelude.{
  ◌≡◌, refl, List, [], ◌∷◌, ◌≤◌, length, false, ◌||◌, if◌then◌else◌,
}
use computer_networks_lab.Libc.Text.{Bytes, store}
use computer_networks_lab.Libc.Input.{fgets}
use computer_networks_lab.Chat.Threads.{buffer_len, is_end, Chat, HearPc, TalkPc, main_next}
use computer_networks_lab.Chat.Programs.{show_named}

-- A datagram that was received, with its sender, or sent, with its receiver.
pub data Datagram : Type 0 where
  got put : (address bytes : Bytes) → Datagram

pub record UdpChat : Type 0 where
  pub chat : Chat
  pub peer : Bytes
  -- Newest first.
  pub wire : List Datagram

module _ (recv : Bytes) where
  pub data UdpStep (s : UdpChat) : UdpChat → Type 0 where
    udp_hear_test :
        s.chat.hear_pc ≡ HearPc.testing
        → UdpStep s (record s {
          chat = record s.chat {
            hear_pc = if s.chat.end_com then HearPc.leaving else HearPc.receiving;
          };
        })
    udp_recv :
        (from bytes : Bytes)
        → length bytes ≤ buffer_len
        → s.chat.hear_pc ≡ HearPc.receiving
        → UdpStep s (record s {
          chat = record s.chat {
            hear_pc = HearPc.checking;
            hear_buffer = store bytes s.chat.hear_buffer;
            received = bytes ∷ s.chat.received;
          };
          peer = from;
          wire = got from bytes ∷ s.wire;
        })
    -- A recvfrom that fails is reported, and leaves the buffer and the address as they were.
    udp_recv_fails :
        s.chat.hear_pc ≡ HearPc.receiving
        → UdpStep s (record s { chat = record s.chat { hear_pc = HearPc.checking } })
    udp_hear_check :
        s.chat.hear_pc ≡ HearPc.checking
        → UdpStep s (record s {
          chat = record s.chat {
            hear_pc = HearPc.printing;
            end_com = is_end s.chat.hear_buffer || s.chat.end_com;
          };
        })
    udp_print :
        s.chat.hear_pc ≡ HearPc.printing
        → UdpStep s (record s {
          chat = record s.chat {
            hear_pc = HearPc.testing;
            printed = show_named recv s.chat.hear_buffer ∷ s.chat.printed;
          };
        })
    udp_hear_leave :
        s.chat.hear_pc ≡ HearPc.leaving
        → UdpStep s (record s { chat = record s.chat { hear_pc = HearPc.finished; hear = false } })
    udp_talk_test :
        s.chat.talk_pc ≡ TalkPc.testing
        → UdpStep s (record s {
          chat = record s.chat {
            talk_pc = if s.chat.end_com then TalkPc.leaving else TalkPc.reading;
          };
        })
    udp_read :
        s.chat.talk_pc ≡ TalkPc.reading
        → UdpStep s (record s {
          chat = record s.chat {
            talk_pc = TalkPc.sending;
            talk_buffer = (fgets s.chat.talk_buffer buffer_len s.chat.input).0;
            input = (fgets s.chat.talk_buffer buffer_len s.chat.input).1;
          };
        })
    udp_send :
        s.chat.talk_pc ≡ TalkPc.sending
        → UdpStep s (record s {
          chat = record s.chat {
            talk_pc = TalkPc.checking;
            sent = s.chat.talk_buffer ∷ s.chat.sent;
          };
          wire = put s.peer s.chat.talk_buffer ∷ s.wire;
        })
    udp_send_fails :
        s.chat.talk_pc ≡ TalkPc.sending
        → UdpStep s (record s { chat = record s.chat { talk_pc = TalkPc.checking } })
    udp_talk_check :
        s.chat.talk_pc ≡ TalkPc.checking
        → UdpStep s (record s {
          chat = record s.chat {
            talk_pc = TalkPc.testing;
            end_com = is_end s.chat.talk_buffer || s.chat.end_com;
          };
        })
    udp_talk_leave :
        s.chat.talk_pc ≡ TalkPc.leaving
        → UdpStep s (record s { chat = record s.chat { talk_pc = TalkPc.finished; talk = false } })
    udp_main : UdpStep s (record s {
      chat = record s.chat { main_pc = main_next s.chat.hear s.chat.talk s.chat.main_pc };
    })

  pub data UdpReach (init : UdpChat) : UdpChat → Type 0 where
    begun : UdpReach init init
    after : {s t : UdpChat} → UdpReach init s → UdpStep s t → UdpReach init t

-- `chat` of chat/udp/chat.c after its two calls of pthread_create, with the address that it is given.
unfoldable pub open_udp : Chat → Bytes → UdpChat
open_udp chat address = record { chat = chat; peer = address; wire = [] }

-- The sender of the newest datagram received, or the address that the chat began with.
abbrev pub latest_sender : Bytes → List Datagram → Bytes
latest_sender address [] = address
latest_sender address (got from bytes ∷ wire) = from
latest_sender address (put to bytes ∷ wire) = latest_sender address wire

-- Each datagram went to the latest sender of its time.
abbrev pub Replies : Bytes → List Datagram → Type 0
Replies address [] = Unit
Replies address (got from bytes ∷ wire) = Replies address wire
Replies address (put to bytes ∷ wire) = (to ≡ latest_sender address wire) × Replies address wire

pub record PeerInv (address : Bytes) (s : UdpChat) : Type 0 where
  pub current : s.peer ≡ latest_sender address s.wire
  pub replies : Replies address s.wire

module _ {recv address : Bytes} where
  UdpStep-PeerInv : {s t : UdpChat} → UdpStep recv s t → PeerInv address s → PeerInv address t
  UdpStep-PeerInv (udp_recv from bytes fits at) inv = record {
    current = refl;
    replies = inv.replies;
  }
  UdpStep-PeerInv (udp_send at) inv = record {
    current = inv.current;
    replies = (inv.current, inv.replies);
  }
  UdpStep-PeerInv (udp_hear_test e) inv = record { current = inv.current; replies = inv.replies }
  UdpStep-PeerInv (udp_recv_fails e) inv = record { current = inv.current; replies = inv.replies }
  UdpStep-PeerInv (udp_hear_check e) inv = record { current = inv.current; replies = inv.replies }
  UdpStep-PeerInv (udp_print e) inv = record { current = inv.current; replies = inv.replies }
  UdpStep-PeerInv (udp_hear_leave e) inv = record { current = inv.current; replies = inv.replies }
  UdpStep-PeerInv (udp_talk_test e) inv = record { current = inv.current; replies = inv.replies }
  UdpStep-PeerInv (udp_read e) inv = record { current = inv.current; replies = inv.replies }
  UdpStep-PeerInv (udp_send_fails e) inv = record { current = inv.current; replies = inv.replies }
  UdpStep-PeerInv (udp_talk_check e) inv = record { current = inv.current; replies = inv.replies }
  UdpStep-PeerInv (udp_talk_leave e) inv = record { current = inv.current; replies = inv.replies }
  UdpStep-PeerInv udp_main inv = record { current = inv.current; replies = inv.replies }

  UdpReach-PeerInv : {s t : UdpChat} → UdpReach recv s t → PeerInv address s → PeerInv address t
  UdpReach-PeerInv begun inv = inv
  UdpReach-PeerInv (after r st) inv = UdpStep-PeerInv st (UdpReach-PeerInv r inv)

-- In every run of the UDP chat each datagram is sent to the sender of the newest datagram received
-- before it, whoever that is, and to the first address only while none has been received.
pub UdpReach-Replies :
    (recv address : Bytes) (chat : Chat) {t : UdpChat}
    → UdpReach recv (open_udp chat address) t
    → Replies address t.wire × (t.peer ≡ latest_sender address t.wire)
unfolding open_udp
UdpReach-Replies recv address chat r =
    let inv = UdpReach-PeerInv {address = address} r (record { current = refl; replies = tt }) in
    (inv.replies, inv.current)
