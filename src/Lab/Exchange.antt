-- ===== src/Lab/Exchange.antt =====
-- The greeting programs of week0/q1/tcp: how they end, and what they exchange.
use computer_networks_lab.Prelude.{ℕ, List, ◌++◌, ◌≡◌, refl, ◌≤◌, arith, length, some}
use computer_networks_lab.Libc.Text.{Bytes, codes, store, c_string, c_string-cleared}
use computer_networks_lab.Libc.Input.{fgets, c_string-fgets_cleared}
use computer_networks_lab.Libc.Port.{atoi, htons}
use computer_networks_lab.Os.{Call, stream, Kernel}
use computer_networks_lab.Lab.Opening.{buffer_size, empty_buffer, accept_one, connect_one, Bounded}
use computer_networks_lab.Lab.FailStop.{
  FailStop, >>=-FailStop, return-FailStop, tell-FailStop, ask-FailStop, need-FailStop,
  checked-FailStop, read_into-FailStop, port_argument-FailStop, host_arguments-FailStop,
  resolved-FailStop,
}
use computer_networks_lab.Lab.Greeting.{ack, answer, server, typed, show_ack, send_line, client}

pub accept_one-FailStop :
    (kernel : Kernel) (argv : List Bytes) → FailStop kernel 1 (accept_one kernel argv)
unfolding accept_one
accept_one-FailStop kernel argv = >>=-FailStop (port_argument-FailStop kernel argv) λ port.
    >>=-FailStop (checked-FailStop (codes "ERROR opening socket") (Call.socket stream)) λ fd.
      >>=-FailStop (checked-FailStop (codes "ERROR on binding") (Call.bind fd (htons (atoi port))))
        λ bound. >>=-FailStop (tell-FailStop (Call.listen fd 5) refl) λ listens.
          >>=-FailStop
            (tell-FailStop (Call.printf (codes "Waiting for client to connect...\n")) refl)
            λ waits. checked-FailStop (codes "ERROR on accept") (Call.accept fd)

answer-FailStop :
    (kernel : Kernel) (fd : ℕ) (buffer text : Bytes)
    → c_string buffer ≡ some text
    → FailStop kernel 1 (answer kernel fd buffer)
unfolding answer
answer-FailStop kernel fd buffer text e = >>=-FailStop (need-FailStop e) λ message.
    >>=-FailStop
      (tell-FailStop (Call.printf (codes "Here is the message: " ++ message ++ codes "\n")) refl)
      λ printed.
        >>=-FailStop (checked-FailStop (codes "ERROR writing to socket") (Call.write fd ack))
          λ written. return-FailStop 0

-- The server stops at the first failing call that it checks, reports it at once, exits with status
-- 1, and never reads outside its buffer, whatever the kernel answers, if reads are bounded.
pub server-FailStop :
    (kernel : Kernel) (argv : List Bytes) → Bounded kernel → FailStop kernel 1 (server kernel argv)
unfolding server
server-FailStop kernel argv bounded = >>=-FailStop (accept_one-FailStop kernel argv) λ fd.
    read_into-FailStop bounded empty_buffer fd 255 (answer kernel fd) λ bytes short.
      let (text, e) = c_string-cleared bytes buffer_size (omega arith) in
      answer-FailStop kernel fd (store bytes empty_buffer) text e

pub connect_one-FailStop :
    (kernel : Kernel) (argv : List Bytes) → FailStop kernel 0 (connect_one kernel argv)
unfolding connect_one
connect_one-FailStop kernel argv =
    >>=-FailStop (host_arguments-FailStop kernel argv) λ (host, port).
      >>=-FailStop (checked-FailStop (codes "ERROR opening socket") (Call.socket stream)) λ fd.
        >>=-FailStop (resolved-FailStop kernel host) λ address.
          >>=-FailStop
            (checked-FailStop (codes "ERROR connecting")
              (Call.connect fd address (htons (atoi port))))
            λ n. return-FailStop fd

show_ack-FailStop :
    (kernel : Kernel) (bytes : Bytes)
    → length bytes ≤ 255
    → FailStop kernel 0 (show_ack (store bytes empty_buffer))
unfolding show_ack
show_ack-FailStop kernel bytes short =
    let (text, e) = c_string-cleared bytes buffer_size (omega arith) in
    >>=-FailStop (need-FailStop e) λ text.
      >>=-FailStop (tell-FailStop (Call.printf (text ++ codes "\n")) refl)
        λ printed. return-FailStop 0

send_line-FailStop :
    (kernel : Kernel) (fd : ℕ) (buffer line : Bytes)
    → Bounded kernel
    → c_string buffer ≡ some line
    → FailStop kernel 0 (send_line kernel fd buffer)
unfolding send_line
send_line-FailStop kernel fd buffer line bounded e = >>=-FailStop (need-FailStop e) λ line.
    >>=-FailStop (checked-FailStop (codes "ERROR writing to socket") (Call.write fd line))
      λ n. read_into-FailStop bounded empty_buffer fd 255 show_ack (show_ack-FailStop kernel)

-- The client stops at the first failing call that it checks, reports it at once and never reads
-- outside its buffers, whatever the kernel answers, if reads are bounded; but the status that it
-- then exits with is 0.
pub client-FailStop :
    (kernel : Kernel) (argv : List Bytes) → Bounded kernel → FailStop kernel 0 (client kernel argv)
unfolding client
client-FailStop kernel argv bounded = >>=-FailStop (connect_one-FailStop kernel argv) λ fd.
    >>=-FailStop (tell-FailStop (Call.printf (codes "Please enter the message: ")) refl) λ asked.
      >>=-FailStop (ask-FailStop (Call.stdin 255) refl) λ input.
        let (line, e) = c_string-fgets_cleared 255 buffer_size (typed input) (omega arith) in
        send_line-FailStop kernel fd (fgets empty_buffer 255 (typed input)).0 line bounded e
