-- ===== src/Examples/Admission.antt =====
-- main of the group chat server on a kernel whose calls succeed.
use computer_networks_lab.Prelude.{ℕ, ◌+◌, ◌≡◌, refl, List, [], ◌∷◌, arith, length, replicate, take}
use computer_networks_lab.Libc.Text.{Bytes, codes}
use computer_networks_lab.Os.{Call, Answer, failed, result, Kernel, done, faulted}
use computer_networks_lab.Lab.FailStop.{FailStop}
use computer_networks_lab.GroupServer.Table.{Server}
use computer_networks_lab.GroupServer.Registry.{Inv}
use computer_networks_lab.GroupServer.Main.{group_server}
use computer_networks_lab.GroupServer.Main.Welcome.{Welcomes, created}
use computer_networks_lab.GroupServer.Main.Joins.{
  Admits, group_server-FailStop, group_server_joins, group_server_overruns,
}

abbrev any_host : Bytes
any_host = replicate 16 0

abbrev shown : Bytes → Bytes
shown address = codes "::1"

abbrev junk : ℕ → Bytes
junk round = replicate 256 7

-- Each connection has a socket of its own.
answers : Call → List Call → Answer
answers (Call.getaddrinfo host port) calls = result 0 any_host
answers (Call.socket kind) calls = result 3 []
answers (Call.accept fd) calls = result (length (created calls) + 4) any_host
answers c calls = result 0 []

open_door : Kernel
unfolding answers
open_door [] = failed
open_door (c ∷ calls) = answers c calls

admits : Admits open_door 3 any_host
unfolding open_door
admits = record {
  resolves = λ host port calls. refl;
  opens = λ calls. refl;
  sets = λ calls. refl;
  binds = λ calls. refl;
  makes = λ calls. refl;
  accepts = λ calls. (length (created calls) + 4, any_host, refl);
}

abbrev argv : List Bytes
argv = codes "server" ∷ codes "9000" ∷ []

group_server-FailStop_example : FailStop open_door 1 (group_server open_door [] shown junk 10 argv)
group_server-FailStop_example = group_server-FailStop open_door [] shown junk 10 argv (omega arith)

group_server_joins_example :
    (calls : List Call) × (t : Server) × (group_server open_door [] shown junk 2 argv []
      ≡ (calls, done t))
    × (t.client_id ≡ 2)
    × Welcomes open_door calls (take 2 t.clients)
    × Inv t
group_server_joins_example = group_server_joins open_door [] shown junk admits 2 argv (omega arith)

group_server_overruns_example : (group_server open_door [] shown junk 11 argv []).1 ≡ faulted
group_server_overruns_example =
    group_server_overruns open_door [] shown junk admits 11 argv (omega arith)
