-- ===== src/Examples/Group.antt =====
-- The group chat with two or ten clients.
use computer_networks_lab.Prelude.{
  ℕ, ◌+◌, ◌≡◌, refl, none, some, [], ◌∷◌, ◌++◌, arith, replicate, map, take,
}
use computer_networks_lab.Libc.Text.{Bytes, codes, c_string, memset, snprintf}
use computer_networks_lab.Libc.Decimal.{decimal}
use computer_networks_lab.Chat.Threads.{recv_into}
use computer_networks_lab.Chat.Programs.{show_plain}
use computer_networks_lab.GroupServer.Table.{buffer_len, Client, Server, message, shout}
use computer_networks_lab.GroupServer.Registry.{Inv}
use computer_networks_lab.GroupServer.Broadcast.{frame, deliver, others, shout_lem}
use computer_networks_lab.GroupServer.Delivery.{short_message_shows, long_message_over_reads}

abbrev junk : Bytes
junk = replicate 256 7

abbrev client : ℕ → Client
client n = record { id = n; sockfd = n + 5 }

-- Two clients have joined.
abbrev pair : Server
pair = record {
  clients = client 0 ∷ client 1 ∷ replicate 8 (record { id = 0; sockfd = 0 });
  client_id = 2;
}

pair-Inv : Inv pair
pair-Inv = record { size = refl; room = omega arith; numbered = (refl, (refl, tt)) }

read_hi : c_string (codes "hi\n" ++ 0 ∷ junk) ≡ some (codes "hi\n")
unfolding c_string
read_hi = refl

shout_lem_example :
    shout pair 1 (codes "hi\n" ++ 0 ∷ junk) (replicate 13 9)
    ≡ some (map (deliver (frame 1 (codes "hi\n"))) (others 1 (take 2 pair.clients)))
shout_lem_example =
    shout_lem pair 1 (codes "hi\n" ++ 0 ∷ junk) (codes "hi\n") (replicate 13 9) pair-Inv
      (omega arith) read_hi refl

-- Client 1 speaks: only client 0, at socket 5, hears it.
one_listener :
    shout pair 1 (codes "hi\n" ++ 0 ∷ junk) (replicate 13 9)
    ≡ some (record { to = 5; bytes = codes "CLIENT1: hi\n" ++ 0 ∷ [] } ∷ [])
unfolding shout c_string memset snprintf decimal
one_listener = refl

short_message_shows_example :
    show_plain (recv_into junk (some (take buffer_len (frame 1 (codes "hi\n")))))
    ≡ some (message 1 (codes "hi\n"))
short_message_shows_example =
    short_message_shows junk 1 (codes "hi\n") (omega arith) (omega arith) (omega arith)

long_message_over_reads_example :
    show_plain (recv_into junk (some (take buffer_len (frame 1 (replicate 250 b'x'))))) ≡ none
long_message_over_reads_example =
    long_message_over_reads junk 1 (replicate 250 b'x') (omega arith) (omega arith) (omega arith)
      refl
