-- ===== src/Examples/Pairs.antt =====
-- The two processes of week0/q3/tcp on a kernel whose calls succeed.
use computer_networks_lab.Prelude.{◌≡◌, refl, ℕ, [], ◌∷◌, arith, take, length-take}
use computer_networks_lab.Libc.Text.{codes, store, strncmp_eq}
use computer_networks_lab.Libc.Input.{fgets, take_line}
use computer_networks_lab.Os.{Call, Answer, failed, result, Kernel, exited}
use computer_networks_lab.Lab.Opening.{Bounded, accept_one}
use computer_networks_lab.Lab.Pair.{
  server_side, client_side, pair_server, pair_client, talk_line, talk_frames,
}
use computer_networks_lab.Lab.Pair.Loops.{Leaves, pair-Leaves}

-- fork gives `pid`, the user types END, and every read gives the start of "hi".
answers : ℕ → Call → Answer
answers pid (Call.socket kind) = result 3 []
answers pid (Call.accept fd) = result 4 []
answers pid (Call.gethostbyname host) = result 0 (127 ∷ 0 ∷ 0 ∷ 1 ∷ [])
answers pid Call.fork = result pid []
answers pid (Call.stdin count) = result 0 (codes "END\n")
answers pid (Call.read fd count) = result 2 (take count (codes "hi"))
answers pid (Call.recvfrom fd count) = result 2 (take count (codes "hi"))
answers pid c = result 0 []

working : ℕ → Kernel
unfolding answers
working pid [] = failed
working pid (c ∷ calls) = answers pid c

working-Bounded : (pid : ℕ) → Bounded (working pid)
unfolding working
working-Bounded pid = record {
  read_bounded = λ fd count n text calls e. ground (arith, length-take count (codes "hi"));
  recvfrom_bounded = λ fd count n text calls e. ground (arith, length-take count (codes "hi"));
}

pair-Leaves_example :
    Leaves (working 0) server_side (pair_server (working 0) 3 (codes "server" ∷ codes "8080" ∷ []))
    × Leaves
        (working 0)
        client_side
        (pair_client (working 0) 3 (codes "server" ∷ codes "8080" ∷ []))
pair-Leaves_example =
    pair-Leaves (working 0) 3 (codes "server" ∷ codes "8080" ∷ []) (working-Bounded 0)

-- The parent reads END in its first round.
parent_ends : (pair_server (working 27) 3 (codes "server" ∷ codes "8080" ∷ []) []).1 ≡ exited 0
unfolding pair_server working talk_frames talk_line fgets take_line store strncmp_eq accept_one
parent_ends = refl
