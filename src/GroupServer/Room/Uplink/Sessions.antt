-- ===== src/GroupServer/Room/Uplink/Sessions.antt =====
-- What links the server and the clients in every state of a session.
use computer_networks_lab.Prelude.{ℕ, refl, sym, [], arith, append-nil}
use computer_networks_lab.Libc.Text.{Bytes, IsText}
use computer_networks_lab.Chat.Threads.{open_chat}
use computer_networks_lab.GroupServer.Table.{init}
use computer_networks_lab.GroupServer.Threads.{start, Reach, here, next}
use computer_networks_lab.GroupServer.Threads.Saying.{after_run, silence}
use computer_networks_lab.GroupServer.Threads.Atomic.{start-Inv, Reach-Inv}
use computer_networks_lab.GroupServer.Room.{backwards, serves, acts, welcomes, reads}
use computer_networks_lab.GroupServer.Room.Everyone.{
  RoomInv, RoomMove-RoomInv, empty_room-RoomInv, seat_all,
}
use computer_networks_lab.GroupServer.Room.Uplink.{
  Session, SessionMove, admits, Meets, convened, continues, first_session,
}
use computer_networks_lab.GroupServer.Room.Uplink.Talking.{
  Talked, Prefix, passed-Talked, acts-Talked,
}
use computer_networks_lab.GroupServer.Room.Uplink.Hearing.{Link, sent-Link}
use computer_networks_lab.GroupServer.Room.Uplink.Linking.{outbox, Step-Link, acts-Prefix}

module _ (input : ℕ → Bytes) where
  -- The invariant of a session.
  pub record SessionInv (x : Session) : Type 0 where
    pub served : Reach start x.room.system
    pub reading : RoomInv x.room
    pub spoke : (fd : ℕ) → Talked (input fd) (x.room.chats fd)
    pub link : Link (outbox x.room.chats) (after_run silence served) x.room.system x.taken

  SessionMove-SessionInv : {x y : Session} → SessionInv x → SessionMove x y → SessionInv y
  SessionMove-SessionInv {x} inv (admits (serves st) f) = record {
    served = next inv.served st;
    reading = RoomMove-RoomInv inv.reading (serves st);
    spoke = inv.spoke;
    link = Step-Link x.room.chats (Reach-Inv start-Inv inv.served) inv.spoke inv.link st f;
  }
  SessionMove-SessionInv {x} inv (admits (acts fd st apart) sound) = record {
    served = inv.served;
    reading = RoomMove-RoomInv inv.reading (acts fd st apart);
    spoke =
        seat_all (λ j c. Talked (input j) c) x.room.chats fd _ inv.spoke
          (acts-Talked st apart sound (inv.spoke fd));
    link =
        sent-Link
          (seat_all (λ j c. Prefix (outbox x.room.chats j) (backwards c.sent)) x.room.chats fd _
            (λ j. ([], sym (append-nil (outbox x.room.chats j)))) (acts-Prefix st apart))
          inv.link;
  }
  SessionMove-SessionInv {x} inv (admits (welcomes fd bytes e fresh at) u) = record {
    served = inv.served;
    reading = RoomMove-RoomInv inv.reading (welcomes fd bytes e fresh at);
    spoke =
        seat_all (λ j c. Talked (input j) c) x.room.chats fd _ inv.spoke
          (passed-Talked (inv.spoke fd) (inv.spoke fd).mouth refl refl);
    link =
        sent-Link
          (seat_all (λ j c. Prefix (outbox x.room.chats j) (backwards c.sent)) x.room.chats fd _
            (λ j. ([], sym (append-nil (outbox x.room.chats j))))
            ([], sym (append-nil (outbox x.room.chats fd))))
          inv.link;
  }
  SessionMove-SessionInv {x} inv (admits (reads fd frame rest e fits g at) u) = record {
    served = inv.served;
    reading = RoomMove-RoomInv inv.reading (reads fd frame rest e fits g at);
    spoke =
        seat_all (λ j c. Talked (input j) c) x.room.chats fd _ inv.spoke
          (passed-Talked (inv.spoke fd) (inv.spoke fd).mouth refl refl);
    link =
        sent-Link
          (seat_all (λ j c. Prefix (outbox x.room.chats j) (backwards c.sent)) x.room.chats fd _
            (λ j. ([], sym (append-nil (outbox x.room.chats j))))
            ([], sym (append-nil (outbox x.room.chats fd))))
          inv.link;
  }

  pub first_session-SessionInv :
      (hear_buffer talk_buffer : ℕ → Bytes)
      → ((fd : ℕ) → IsText (input fd))
      → SessionInv (first_session hear_buffer talk_buffer input)
  unfolding start init open_chat
  first_session-SessionInv hear_buffer talk_buffer text = record {
    served = here;
    reading = empty_room-RoomInv hear_buffer talk_buffer input;
    spoke = λ fd. record {
      lines = [];
      at_mouth = [];
      carries = tt;
      mouth = refl;
      unread = text fd;
      whole = refl;
    };
    link = record {
      says_so = λ k. refl;
      fetched = λ k. ([], refl);
      alone = λ j k b. absurd b;
      numbered = λ k b. absurd b;
      silent = λ id past. refl;
      seated = λ i c inside. absurd (omega (arith, inside));
    };
  }

  pub Meets-SessionInv : {x y : Session} → SessionInv x → Meets x y → SessionInv y
  Meets-SessionInv inv convened = inv
  Meets-SessionInv inv (continues r m) = SessionMove-SessionInv (Meets-SessionInv inv r) m
