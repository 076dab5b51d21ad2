-- ===== src/Examples/Exercises.antt =====
-- The exercises of week0/q1/udp, q2 and q3 at concrete inputs.
use computer_networks_lab.Prelude.{◌≡◌, refl, [], ◌∷◌, ◌++◌, arith, length, take, replicate, some}
use computer_networks_lab.Libc.Text.{Bytes, codes, strncmp_eq, store}
use computer_networks_lab.Libc.Input.{take_line, fgets}
use computer_networks_lab.Libc.Decimal.{decimal}
use computer_networks_lab.Os.{Call, Answer, failed, result, Kernel, done}
use computer_networks_lab.Lab.Runs.{Serves}
use computer_networks_lab.Lab.Civil.{Civil, IsCivil, broken_down, shown_date}
use computer_networks_lab.Lab.Date.{date_text, request, date_server, date_client}
use computer_networks_lab.Lab.Calendar.{
  Asks, date_frame, date_server_calls, date_client_calls, date_exchange,
}
use computer_networks_lab.Lab.Datagram.{
  hello, udp_server, udp_client, Greets, Hears, udp_server_calls, udp_client_asks,
  datagram_exchange,
}
use computer_networks_lab.Lab.Pair.{talk_line, printed, pair-talk}

-- 25 November 2026
abbrev today : Civil
today = record { year = 2026; month = 11; day = 25; hour = 9; minute = 5; second = 0 }

-- The month is one too small, and the year is counted from 1900.
date_print : date_text (broken_down today) ≡ codes "now 25-10-126 9:5:0"
unfolding date_text decimal
date_print = refl

today-IsCivil : IsCivil today
today-IsCivil = record {
  since = omega arith;
  until = omega arith;
  first = omega arith;
  last = omega arith;
  days = omega arith;
  hours = omega arith;
  minutes = omega arith;
  seconds = omega arith;
}

-- Every call succeeds, and what is read or received is `bytes`.
answers : Bytes → Call → Answer
answers bytes (Call.socket kind) = result 3 []
answers bytes (Call.accept fd) = result 4 []
answers bytes (Call.gethostbyname host) = result 0 (127 ∷ 0 ∷ 0 ∷ 1 ∷ [])
answers bytes (Call.read fd count) = result (length bytes) bytes
answers bytes (Call.recvfrom fd count) = result (length bytes) bytes
answers bytes (Call.write fd text) = result (length text) []
answers bytes (Call.sendto fd text address port) = result (length text) []
answers bytes (Call.reply_to fd text) = result (length text) []
answers bytes c = result 0 []

working : Bytes → Kernel
unfolding answers
working bytes [] = failed
working bytes (c ∷ calls) = answers bytes c

abbrev local : Bytes
local = 127 ∷ 0 ∷ 0 ∷ 1 ∷ []

serves : Serves (working request) 3 4 request
unfolding working
serves = record {
  opens = λ calls. refl;
  binds = λ port calls. refl;
  accepts = λ calls. refl;
  reads = λ calls. refl;
  writes = λ reply calls. refl;
}

-- The server's buffer holds other bytes before.
abbrev old : Bytes
old = replicate 256 7

asks : (bytes : Bytes) → Asks (working bytes) 3 local bytes
unfolding working
asks bytes = record {
  opens = λ calls. refl;
  resolves = λ host calls. refl;
  connects = λ port calls. refl;
  writes = λ line calls. refl;
  reads = λ calls. refl;
}

date_exchange_example :
    (date_server (working request) (broken_down today) old (codes "server" ∷ codes "8080" ∷ []) []
      ≡ (date_server_calls 3 4 (codes "8080") (shown_date today) old, done 0))
    × (date_client
          (working (take 255 (date_frame (shown_date today) old)))
          (codes "client" ∷ codes "localhost" ∷ codes "8080" ∷ [])
          []
        ≡ (date_client_calls 3 local (codes "localhost") (codes "8080") (shown_date today), done 0))
date_exchange_example =
    date_exchange (working request) (working (take 255 (date_frame (shown_date today) old))) 3 4 3
      (codes "8080") (codes "localhost") local old today today-IsCivil serves
      (asks (take 255 (date_frame (shown_date today) old)))

greets : Greets (working (codes "1" ++ 0 ∷ [])) 3
unfolding working
greets = record {
  opens = λ calls. refl;
  binds = λ port calls. refl;
  receives = λ calls. refl;
  replies = λ text calls. refl;
}

hears : (bytes : Bytes) → Hears (working bytes) 3 local bytes
unfolding working
hears bytes = record {
  opens = λ calls. refl;
  resolves = λ host calls. refl;
  sends = λ text port calls. refl;
  receives = λ calls. refl;
}

datagram_exchange_example :
    (udp_server (working (codes "1" ++ 0 ∷ [])) (codes "server" ∷ codes "8080" ∷ []) []
      ≡ (udp_server_calls 3 (codes "8080"), done 0))
    × (udp_client (working hello) (codes "client" ∷ codes "localhost" ∷ codes "8080" ∷ []) [] ≡ (
      Call.close 3
          ∷ Call.printf (hello ++ codes "\n")
          ∷ udp_client_asks 3 local (codes "localhost") (codes "8080"),
      done 0,
    ))
datagram_exchange_example =
    datagram_exchange (working (codes "1" ++ 0 ∷ [])) (working hello) 3 3 (codes "8080")
      (codes "localhost") local greets (hears hello)

pair-talk_example : printed old (talk_line old (codes "hi\n")) ≡ some (codes "hi\n")
unfolding take_line strncmp_eq fgets store
pair-talk_example = pair-talk old old (codes "i\n") b'h' (omega arith) refl
