-- ===== src/Examples/Sockets.antt =====
-- The greeting exchange on a kernel whose calls succeed.
use computer_networks_lab.Prelude.{◌≡◌, refl, [], ◌∷◌, arith, length, take, length-take}
use computer_networks_lab.Libc.Text.{Bytes, codes}
use computer_networks_lab.Libc.Input.{take_line}
use computer_networks_lab.Os.{Call, Answer, failed, result, Kernel, done}
use computer_networks_lab.Lab.Opening.{Bounded}
use computer_networks_lab.Lab.FailStop.{FailStop}
use computer_networks_lab.Lab.Greeting.{ack, server, client}
use computer_networks_lab.Lab.Exchange.{server-FailStop, client-FailStop}
use computer_networks_lab.Lab.Runs.{Serves, Connects, server_calls, client_calls, greeting_exchange}

-- Every call succeeds, the user types `input`, and every read gives the start of `bytes`.
answers : Bytes → Bytes → Call → Answer
answers input bytes (Call.socket kind) = result 3 []
answers input bytes (Call.accept fd) = result 4 []
answers input bytes (Call.gethostbyname host) = result 0 (127 ∷ 0 ∷ 0 ∷ 1 ∷ [])
answers input bytes (Call.stdin count) = result 0 input
answers input bytes (Call.read fd count) = result (length (take count bytes)) (take count bytes)
answers input bytes (Call.recvfrom fd count) = result (length (take count bytes)) (take count bytes)
answers input bytes (Call.write fd text) = result (length text) []
answers input bytes c = result 0 []

working : Bytes → Bytes → Kernel
unfolding answers
working input bytes [] = failed
working input bytes (c ∷ calls) = answers input bytes c

working-Bounded : (input bytes : Bytes) → Bounded (working input bytes)
unfolding working
working-Bounded input bytes = record {
  read_bounded = λ fd count n text calls e. ground (arith, length-take count bytes);
  recvfrom_bounded = λ fd count n text calls e. ground (arith, length-take count bytes);
}

-- A kernel that refuses every call.
abbrev refusing : Kernel
refusing calls = failed

server-FailStop_example :
    FailStop
      (working [] (codes "hi\n"))
      1
      (server (working [] (codes "hi\n")) (codes "server" ∷ codes "8080" ∷ []))
server-FailStop_example =
    server-FailStop (working [] (codes "hi\n")) (codes "server" ∷ codes "8080" ∷ [])
      (working-Bounded [] (codes "hi\n"))

client-FailStop_example :
    FailStop
      (working (codes "hi\n") ack)
      0
      (client (working (codes "hi\n") ack) (codes "client" ∷ codes "localhost" ∷ codes "8080" ∷ []))
client-FailStop_example =
    client-FailStop (working (codes "hi\n") ack)
      (codes "client" ∷ codes "localhost" ∷ codes "8080" ∷ []) (working-Bounded (codes "hi\n") ack)

serves : Serves (working [] (codes "hi\n")) 3 4 (codes "hi\n")
unfolding working
serves = record {
  opens = λ calls. refl;
  binds = λ port calls. refl;
  accepts = λ calls. refl;
  reads = λ calls. refl;
  writes = λ reply calls. refl;
}

connects : Connects (working (codes "hi\n") ack) 3 (127 ∷ 0 ∷ 0 ∷ 1 ∷ []) (codes "hi\n") ack
unfolding working
connects = record {
  opens = λ calls. refl;
  resolves = λ host calls. refl;
  connects = λ port calls. refl;
  types = λ calls. refl;
  writes = λ line calls. refl;
  reads = λ calls. refl;
}

greeting_exchange_example :
    (server (working [] (codes "hi\n")) (codes "server" ∷ codes "8080" ∷ []) []
      ≡ (server_calls 3 4 (codes "8080") (take_line 254 (codes "hi\n")).0, done 0))
    × (client
          (working (codes "hi\n") ack)
          (codes "client" ∷ codes "localhost" ∷ codes "8080" ∷ [])
          []
        ≡ (
          client_calls 3
              (127 ∷ 0 ∷ 0 ∷ 1 ∷ [])
              (codes "localhost")
              (codes "8080")
              (take_line 254 (codes "hi\n")).0
              ack,
          done 0,
        ))
unfolding take_line
greeting_exchange_example =
    greeting_exchange (working [] (codes "hi\n")) (working (codes "hi\n") ack) 3 4 3 b'h'
      (codes "8080") (codes "localhost") (127 ∷ 0 ∷ 0 ∷ 1 ∷ []) (codes "i\n") serves connects
      (omega arith)
