-- ===== src/GroupServer/Room/Everyone.antt =====
-- What all members of the group chat read.
use mathlib.Core.List.{Memᴰ}
use computer_networks_lab.Prelude.{
  ℕ, ◌≤◌, length, arith, Option, Bool, true, ◌≡◌, refl, sym, subst, ap, ◌∙◌, none, some, List, [],
  ◌∷◌, ◌++◌, map, All, All-append, take, ◌==◌, Bool-cases, inl, inr, ==_iff, append_assoc,
}
use computer_networks_lab.Libc.Text.{Bytes}
use computer_networks_lab.Chat.Threads.{HearPc, Chat, open_chat}
use computer_networks_lab.GroupServer.Table.{Client, Send}
use computer_networks_lab.GroupServer.Threads.{start, Reach, here, next}
use computer_networks_lab.GroupServer.Threads.History.{Event, members_of}
use computer_networks_lab.GroupServer.Threads.Inbox.{
  inbox, inbox-append, heard, Distinct, inbox-heard,
}
use computer_networks_lab.GroupServer.Threads.Frames.{IsFrame, Frames, Step-Grows}
use computer_networks_lab.GroupServer.Room.{
  Room, seat, backwards, RoomMove, serves, acts, welcomes, reads, take_greeting, Gathers, opens,
  goes_on, empty_room,
}
use computer_networks_lab.GroupServer.Room.Printing.{acts-Reads}
use computer_networks_lab.GroupServer.Room.Reading.{
  terminated, Reads, sent-Reads, next-Reads, take_greeting-Reads, Reads-Unprinted,
}

inbox-Frames : (fd : ℕ) (xs : List Send) → Frames xs → All IsFrame (inbox fd xs)
inbox-Frames fd [] h = tt
inbox-Frames fd (x ∷ xs) h = elim (Bool-cases (x.to == fd)) [
  | inl same ↦ rw same (h.0, inbox-Frames fd xs h.1)
  | inr other ↦ rw other (inbox-Frames fd xs h.1)
]

pub seat_all :
    (P : ℕ → Chat → Type 0) (chats : ℕ → Chat) (fd : ℕ) (c : Chat)
    → ((j : ℕ) → P j (chats j))
    → P fd c
    → (j : ℕ) → P j (seat chats fd c j)
seat_all P chats fd c rest own j = elim (Bool-cases (j == fd)) [
  | inl same ↦ rw same (subst (λ i. P i c) (sym ((==_iff j fd).0 same)) own)
  | inr other ↦ rw other (rest j)
]

pub record RoomInv (r : Room) : Type 0 where
  pub served : Reach start r.system
  pub frames : Frames r.system.sends
  pub reading : (fd : ℕ) → Reads (r.greeted fd) (inbox fd r.system.sends) (r.chats fd)

pub RoomMove-RoomInv : {r q : Room} → RoomInv r → RoomMove r q → RoomInv q
RoomMove-RoomInv {r} inv (serves {t} st) =
    let grows = Step-Grows inv.served st in
    record {
      served = next inv.served st;
      frames =
          subst Frames (sym grows.more)
            (All-append _ r.system.sends grows.out inv.frames grows.frames);
      reading = λ fd.
          subst (λ xs. Reads (r.greeted fd) xs (r.chats fd))
            (sym (ap (inbox fd) grows.more ∙ inbox-append fd r.system.sends grows.out))
            (sent-Reads (inbox fd grows.out) (inv.reading fd));
    }
RoomMove-RoomInv {r} inv (acts fd st apart) = record {
  served = inv.served;
  frames = inv.frames;
  reading =
      seat_all (λ j c. Reads (r.greeted j) (inbox j r.system.sends) c) r.chats fd _ inv.reading
        (acts-Reads st apart (inv.reading fd));
}
RoomMove-RoomInv {r} inv (welcomes fd bytes e fresh at) = record {
  served = inv.served;
  frames = inv.frames;
  reading = λ j. elim (Bool-cases (j == fd)) [
    | inl same ↦ rw same (
        subst (λ i. Reads true (inbox i r.system.sends) (take_greeting (r.chats fd) bytes))
          (sym ((==_iff j fd).0 same))
          (take_greeting-Reads bytes
            (subst (λ g. Reads g (inbox fd r.system.sends) (r.chats fd)) fresh (inv.reading fd))
            at))
    | inr other ↦ rw other (inv.reading j)
  ];
}
RoomMove-RoomInv {r} inv (reads fd frame rest e fits g at) = record {
  served = inv.served;
  frames = inv.frames;
  reading =
      seat_all (λ j c. Reads (r.greeted j) (inbox j r.system.sends) c) r.chats fd _ inv.reading
        (next-Reads frame rest (inv.reading fd) (inbox-Frames fd r.system.sends inv.frames) e g at);
}

-- What has been printed after the greeting are the beginning of what was to be heard: `lines` has the
-- newest first.
pub record Prints (expected : List Bytes) (m : Chat) : Type 0 where
  pub lines : List Bytes
  pub rest : List Bytes
  pub welcome : List (Option Bytes)
  pub once : length welcome ≤ 1
  pub prints : m.printed ≡ map some lines ++ welcome
  pub begins : expected ≡ backwards (map terminated lines) ++ rest

split_ear :
    (ear lines rest : List Bytes)
    → (rest' : List Bytes) × (backwards (map terminated (ear ++ lines)) ++ rest
        ≡ backwards (map terminated lines) ++ rest')
split_ear [] lines rest = (rest, refl)
split_ear (x ∷ ear) lines rest =
    let (rest', e) = split_ear ear lines (terminated x ∷ rest) in
    (rest', append_assoc (backwards (map terminated (ear ++ lines))) (terminated x ∷ []) rest ∙ e)

pub Reads-Prints :
    {greeted : Bool} {sent : List Bytes} {m : Chat} → Reads greeted sent m → Prints sent m
Reads-Prints h =
    let (rest, e) = split_ear h.ear h.lines h.rest in
    record {
      lines = h.lines;
      rest = rest;
      welcome = h.welcome;
      once = h.once;
      prints = h.prints;
      begins = h.begins ∙ (ap (λ l. backwards l ++ h.rest) h.took ∙ e);
    }

module _ (hear_buffer talk_buffer input : ℕ → Bytes) where
  pub empty_room-RoomInv : RoomInv (empty_room hear_buffer talk_buffer input)
  unfolding start open_chat
  empty_room-RoomInv = record {
    served = here;
    frames = tt;
    reading = λ fd. record {
      lines = [];
      ear = [];
      welcome = [];
      once = omega arith;
      before = λ no. (refl, refl, refl);
      rest = [];
      prints = refl;
      unprinted = refl;
      took = refl;
      begins = refl;
    };
  }

  Gathers-RoomInv : {r : Room} → Gathers (empty_room hear_buffer talk_buffer input) r → RoomInv r
  Gathers-RoomInv opens = empty_room-RoomInv
  Gathers-RoomInv (goes_on g m) = RoomMove-RoomInv (Gathers-RoomInv g) m

  -- In every state of the room in which the mutex is free, and if the sockets of the server differ,
  -- there is one history of joins and shouts for all members: what each member has printed,
  -- after at most one print of its greeting, is, in order and each with its NUL, the beginning of the
  -- shouts of others since this member joined. Each frame that is read arrives whole in one read, and
  -- no read fails.
  pub everyone_reads :
      {r : Room}
      → Gathers (empty_room hear_buffer talk_buffer input) r
      → r.system.lock ≡ none
      → Distinct (take r.system.server.client_id r.system.server.clients)
      → (h : List Event) × (members_of h ≡ take r.system.server.client_id r.system.server.clients)
        × ((c : Client)
            → Memᴰ c (take r.system.server.client_id r.system.server.clients)
            → Prints (heard c h) (r.chats c.sockfd))
  everyone_reads {r} g free apart =
      let inv = Gathers-RoomInv g in
      let (h, joined, hears) = inbox-heard inv.served free apart in
      (
        h,
        joined,
        λ c i.
            subst (λ sent. Prints sent (r.chats c.sockfd)) (hears c i)
              (Reads-Prints (inv.reading c.sockfd)),
      )

  -- If moreover a member waits for a frame and has read all that has been sent to it, then it has printed,
  -- after at most one print of its greeting, every shout of others since it joined, each once and in
  -- the order of the history.
  pub caught_up :
      {r : Room} (c : Client)
      → Gathers (empty_room hear_buffer talk_buffer input) r
      → r.system.lock ≡ none
      → Distinct (take r.system.server.client_id r.system.server.clients)
      → Memᴰ c (take r.system.server.client_id r.system.server.clients)
      → (r.chats c.sockfd).hear_pc ≡ HearPc.receiving
      → inbox c.sockfd r.system.sends ≡ backwards (r.chats c.sockfd).received
      → (h : List Event) × (members_of h ≡ take r.system.server.client_id r.system.server.clients)
        × (lines : List Bytes) × (welcome : List (Option Bytes)) × (length welcome ≤ 1)
        × ((r.chats c.sockfd).printed ≡ map some lines ++ welcome)
        × (heard c h ≡ backwards (map terminated lines))
  caught_up {r} c g free apart i waits all_read =
      let inv = Gathers-RoomInv g in
      let (h, joined, hears) = inbox-heard inv.served free apart in
      let x = inv.reading c.sockfd in
      (
        h,
        joined,
        x.lines,
        x.welcome,
        x.once,
        x.prints,
        sym (hears c i)
            ∙ (all_read
                ∙ (ap backwards x.took
                    ∙ ap (λ e. backwards (map terminated (e ++ x.lines)))
                        (Reads-Unprinted HearPc.receiving x waits))),
      )
