-- ===== src/Examples/Hello.antt =====
-- The programs of week0/beej on a kernel whose calls succeed.
use computer_networks_lab.Prelude.{List, ◌≡◌, refl, [], ◌∷◌, length, replicate}
use computer_networks_lab.Libc.Text.{Bytes, codes}
use computer_networks_lab.Os.{stream, Call, Answer, failed, result, Kernel, done, exited}
use computer_networks_lab.Lab.FailStop.{FailStop}
use computer_networks_lab.Beej.Opening.{connected}
use computer_networks_lab.Beej.Mains.{
  world, serve, simple_client, chat_server, chat_client, group_client, udp_chat_server,
  udp_chat_client,
}
use computer_networks_lab.Beej.Exchange.{mains-FailStop, Joins, Forks, world_exchange}

abbrev local : Bytes
local = 127 ∷ 0 ∷ 0 ∷ 1 ∷ []

-- inet_ntop of the one address here, and a message of gai_strerror.
abbrev shown : Bytes → Bytes
shown address = codes "127.0.0.1"

abbrev unknown : Bytes
unknown = codes "Name or service not known"

answers : Call → Answer
answers (Call.getaddrinfo host port) = result 0 local
answers (Call.socket kind) = result 3 []
answers (Call.accept fd) = result 4 local
answers (Call.read fd count) = result (length world) world
answers (Call.write fd text) = result (length text) []
answers c = result 0 []

working : Kernel
unfolding answers
working [] = failed
working (c ∷ calls) = answers c

abbrev argv : List Bytes
argv = codes "client" ∷ codes "localhost" ∷ codes "8080" ∷ []

mains-FailStop_example :
    FailStop working 1 (chat_server working unknown shown argv)
    × (FailStop working 1 (chat_client working unknown shown argv)
        × (FailStop working 1 (group_client working unknown shown argv)
            × (FailStop working 1 (udp_chat_server working unknown shown 0 argv)
                × FailStop working 1 (udp_chat_client working unknown shown argv))))
mains-FailStop_example = mains-FailStop working unknown shown 0 argv

joins : Joins working 3 local world
unfolding working
joins = record {
  resolves = λ host port calls. refl;
  opens = λ calls. refl;
  connects = λ calls. refl;
  reads = λ calls. refl;
}

forks : Forks working 3 4 local
unfolding working
forks = record { accepts = λ calls. refl; forks = λ calls. refl; writes = λ text calls. refl }

world_exchange_example :
    (serve working unknown shown 2 3 [] ≡ (
      Call.write 4 world
          ∷ Call.close 3
          ∷ Call.fork
          ∷ connected working unknown shown local
          ∷ Call.accept 3
          ∷ [],
      exited 0,
    ))
    × (simple_client working unknown shown (replicate 100 7) argv [] ≡ (
      Call.printf (codes "Server sent: Hello World!\n")
          ∷ Call.read 3 100
          ∷ connected working unknown shown local
          ∷ Call.connect_to 3 local
          ∷ Call.socket stream
          ∷ Call.getaddrinfo (codes "localhost") (codes "8080")
          ∷ [],
      done 0,
    ))
world_exchange_example =
    world_exchange working working unknown shown 1 3 4 3 local (codes "localhost") (codes "8080")
      local (replicate 100 7) [] forks joins
