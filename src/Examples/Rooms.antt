-- ===== src/Examples/Rooms.antt =====
-- In the group chat client 0 says "hi", and client 1 reads it.
use mathlib.Core.List.{Memᴰ}
use computer_networks_lab.Prelude.{
  ◌≤◌, Option, length, replicate, ◌≡◌, refl, none, some, List, [], ◌∷◌, ◌++◌, arith, take, map,
}
use computer_networks_lab.Libc.Text.{Bytes, codes, c_string, store, memset, snprintf}
use computer_networks_lab.Libc.Decimal.{decimal}
use computer_networks_lab.Chat.Threads.{
  is_end, HearPc, open_chat, hear_test, hear_check, hear_print,
}
use computer_networks_lab.Chat.Programs.{show_plain}
use computer_networks_lab.GroupServer.Table.{Client, init, accept_client}
use computer_networks_lab.GroupServer.Threads.{System, start, shout_round, Reach, here, next}
use computer_networks_lab.GroupServer.Threads.History.{Event, members_of}
use computer_networks_lab.GroupServer.Threads.Inbox.{inbox, heard, Distinct}
use computer_networks_lab.GroupServer.Room.{
  Room, backwards, serves, acts, welcomes, reads, Gathers, opens, goes_on, empty_room,
}
use computer_networks_lab.GroupServer.Room.Reading.{terminated}
use computer_networks_lab.GroupServer.Room.Everyone.{Prints, everyone_reads, caught_up}
use computer_networks_lab.Examples.Threads.{junk, busy, spoken}

abbrev clean : Bytes
clean = replicate 256 0

abbrev quiet : Room
quiet = empty_room (λ fd. clean) (λ fd. junk) (λ fd. codes "hi\n")

-- A run of the server is a run of the room.
alone :
    {s : System}
    → Reach start s
    → Gathers quiet (record { system = s; chats = quiet.chats; greeted = quiet.greeted })
alone here = opens
alone (next r st) = goes_on (alone r) (serves st)

-- The chat behind socket 6 reads the frame, prints it, and waits for the next.
read_hi :
    (r : Room) × Gathers quiet r
    × (r.system.lock ≡ none)
    × Distinct (take r.system.server.client_id r.system.server.clients)
    × ((r.chats 6).hear_pc ≡ HearPc.receiving)
    × (inbox 6 r.system.sends ≡ backwards (r.chats 6).received)
    × ((r.chats 6).printed ≡ some (codes "CLIENT0: hi\n") ∷ some (codes "You are Client1\n") ∷ [])
unfolding spoken busy open_chat shout_round start init accept_client c_string store snprintf decimal
    memset show_plain is_end
read_hi = (
  _,
  goes_on
      (goes_on
        (goes_on
          (goes_on
            (goes_on
              (goes_on
                (goes_on
                  (goes_on (goes_on (alone spoken.1) (acts 6 (hear_test refl) tt))
                    (welcomes 6 _ refl refl refl))
                  (acts 6 (hear_check refl) tt))
                (acts 6 (hear_print refl) tt))
              (acts 6 (hear_test refl) tt))
            (reads 6 _ [] refl (omega arith) refl refl))
          (acts 6 (hear_check refl) tt))
        (acts 6 (hear_print refl) tt))
      (acts 6 (hear_test refl) tt),
  refl,
  (refl, (refl, tt)),
  refl,
  refl,
  refl,
)

everyone_reads_example :
    (h : List Event) × (members_of h
      ≡ take read_hi.0.system.server.client_id read_hi.0.system.server.clients)
    × ((c : Client)
        → Memᴰ c (take read_hi.0.system.server.client_id read_hi.0.system.server.clients)
        → Prints (heard c h) (read_hi.0.chats c.sockfd))
everyone_reads_example =
    everyone_reads (λ fd. clean) (λ fd. junk) (λ fd. codes "hi\n") read_hi.1 read_hi.2 read_hi.3

abbrev reader : Client
reader = record { id = 1; sockfd = 6 }

reader_joined : Memᴰ reader (take read_hi.0.system.server.client_id read_hi.0.system.server.clients)
unfolding read_hi spoken busy start init accept_client
reader_joined = Memᴰ.tail (Memᴰ.head refl)

caught_up_example :
    (h : List Event) × (members_of h
      ≡ take read_hi.0.system.server.client_id read_hi.0.system.server.clients)
    × (lines : List Bytes) × (welcome : List (Option Bytes)) × (length welcome ≤ 1)
    × ((read_hi.0.chats reader.sockfd).printed ≡ map some lines ++ welcome)
    × (heard reader h ≡ backwards (map terminated lines))
caught_up_example =
    caught_up (λ fd. clean) (λ fd. junk) (λ fd. codes "hi\n") reader read_hi.1 read_hi.2 read_hi.3
      reader_joined read_hi.4 read_hi.5
