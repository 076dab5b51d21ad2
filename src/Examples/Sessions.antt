-- ===== src/Examples/Sessions.antt =====
-- In the group chat the client behind socket 5 types "hi", and the client behind socket 6 reads it.
use mathlib.Core.List.{Memᴰ}
use computer_networks_lab.Prelude.{ℕ, ◌≡◌, refl, none, some, List, [], ◌∷◌, arith, take, replicate}
use computer_networks_lab.Libc.Text.{Bytes, codes, c_string, store, memset, snprintf}
use computer_networks_lab.Libc.Input.{fgets, take_line}
use computer_networks_lab.Libc.Decimal.{decimal}
use computer_networks_lab.Chat.Threads.{
  is_end, open_chat, hear_test, hear_check, hear_print, talk_test, talk_read, talk_send,
}
use computer_networks_lab.Chat.Programs.{show_plain}
use computer_networks_lab.GroupServer.Table.{Client, init, accept_client}
use computer_networks_lab.GroupServer.Threads.{
  start, shout_round, main_accept, main_count, hear_recv, hear_lock, hear_shout, hear_unlock,
}
use computer_networks_lab.GroupServer.Threads.History.{Event, members_of}
use computer_networks_lab.GroupServer.Threads.Inbox.{heard, Distinct}
use computer_networks_lab.GroupServer.Room.{serves, acts, welcomes, reads}
use computer_networks_lab.GroupServer.Room.Everyone.{Prints}
use computer_networks_lab.GroupServer.Room.Uplink.{
  Session, admits, Meets, convened, continues, first_session,
}
use computer_networks_lab.GroupServer.Room.Uplink.Typed.{Begins, typed_reaches_all}
use computer_networks_lab.Examples.Threads.{junk}

abbrev typing : ℕ → Bytes
typing fd = codes "hi\nthere\n"

abbrev empty : Session
empty = first_session (λ fd. replicate 256 0) (λ fd. junk) typing

-- Both clients have joined, and the first has typed and sent its line.
said : (x : Session) × Meets empty x
unfolding open_chat start init accept_client c_string store snprintf decimal memset fgets take_line
said = (
  _,
  continues
      (continues
        (continues
          (continues
            (continues
              (continues
                (continues convened
                  (admits (serves (main_accept 0 5 junk junk _ _ _ refl refl refl refl)) tt))
                (admits (serves (main_count refl)) tt))
              (admits (serves (main_accept 1 6 junk junk _ _ _ refl refl refl refl)) tt))
            (admits (serves (main_count refl)) tt))
          (admits (acts 5 (talk_test refl) tt) tt))
        (admits (acts 5 (talk_read refl) tt) (λ e. cc)))
      (admits (acts 5 (talk_send refl) tt) tt),
)

-- The server passes it on.
passed_on : (x : Session) × Meets empty x
unfolding said open_chat shout_round start init accept_client c_string store snprintf decimal memset
    fgets take_line
passed_on = (
  _,
  continues
      (continues
        (continues
          (continues
            (continues
              (continues said.1 (admits (serves (hear_recv 0 _ (omega arith) refl)) ([], refl)))
              (admits
                (serves
                  (hear_lock 0 (codes "hi\n") (replicate 13 9) refl refl refl refl (omega arith)))
                tt))
            (admits (serves (hear_shout 0 0 _ _ _ _ refl refl)) tt))
          (admits (serves (hear_shout 0 1 _ _ _ _ refl refl)) tt))
        (admits (serves (hear_shout 0 2 _ _ _ _ refl refl)) tt))
      (admits (serves (hear_unlock 0 refl)) tt),
)

-- The other client prints it.
printed_there :
    (x : Session) × Meets empty x
    × (x.room.system.lock ≡ none)
    × Distinct (take x.room.system.server.client_id x.room.system.server.clients)
    × ((x.room.chats 6).printed
        ≡ some (codes "CLIENT0: hi\n") ∷ some (codes "You are Client1\n") ∷ [])
unfolding passed_on said open_chat shout_round start init accept_client c_string store snprintf
    decimal memset fgets take_line show_plain is_end
printed_there = (
  _,
  continues
      (continues
        (continues
          (continues
            (continues
              (continues
                (continues (continues passed_on.1 (admits (acts 6 (hear_test refl) tt) tt))
                  (admits (welcomes 6 _ refl refl refl) tt))
                (admits (acts 6 (hear_check refl) tt) tt))
              (admits (acts 6 (hear_print refl) tt) tt))
            (admits (acts 6 (hear_test refl) tt) tt))
          (admits (reads 6 _ [] refl (omega arith) refl refl) tt))
        (admits (acts 6 (hear_check refl) tt) tt))
      (admits (acts 6 (hear_print refl) tt) tt),
  refl,
  (refl, (refl, tt)),
  refl,
)

typed_reaches_all_example :
    (h : List Event) × (members_of h
      ≡ take printed_there.0.room.system.server.client_id
          printed_there.0.room.system.server.clients)
    × ((c : Client)
        → Memᴰ c (
            take printed_there.0.room.system.server.client_id
              printed_there.0.room.system.server.clients)
        → Begins typing c h × Prints (heard c h) (printed_there.0.room.chats c.sockfd))
typed_reaches_all_example =
    typed_reaches_all typing (λ fd. replicate 256 0) (λ fd. junk) (λ fd. omega arith)
      printed_there.1 printed_there.2 printed_there.3
