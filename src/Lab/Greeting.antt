-- ===== src/Lab/Greeting.antt =====
-- week0/q1/tcp: the client sends a line, the server prints it and answers "I got your message".
use computer_networks_lab.Prelude.{ℕ, List, [], ◌++◌}
use computer_networks_lab.Libc.Text.{Bytes, codes, store, c_string}
use computer_networks_lab.Libc.Input.{fgets}
use computer_networks_lab.Os.{
  Call, Answer, failed, result, Kernel, Program, return, tell, ask, need, ◌>>=◌, ◌>>◌,
}
use computer_networks_lab.Lab.Opening.{empty_buffer, checked, accept_one, connect_one, read_into}

abbrev pub ack : Bytes
ack = codes "I got your message"

-- main of server.c after its read.
unfoldable pub answer : Kernel → ℕ → Bytes → Program ℕ
unfolding c_string
answer kernel fd buffer = do
  message ← need (c_string buffer)
  tell (Call.printf (codes "Here is the message: " ++ message ++ codes "\n"))
  _ ← checked kernel 1 (codes "ERROR writing to socket") (Call.write fd ack)
  return 0

-- main of server.c
unfoldable pub server : Kernel → List Bytes → Program ℕ
unfolding accept_one answer store
server kernel argv = do
  fd ← accept_one kernel argv
  buffer ← read_into kernel 1 empty_buffer fd 255
  answer kernel fd buffer

-- What is left to read on standard input; a failed call is its end.
abbrev pub typed : Answer → Bytes
typed failed = []
typed (result n bytes) = bytes

-- main of client.c after its last read.
unfoldable pub show_ack : Bytes → Program ℕ
unfolding c_string
show_ack buffer = do
  text ← need (c_string buffer)
  tell (Call.printf (text ++ codes "\n"))
  return 0

-- main of client.c after it has read a line.
unfoldable pub send_line : Kernel → ℕ → Bytes → Program ℕ
unfolding show_ack store c_string
send_line kernel fd buffer = do
  line ← need (c_string buffer)
  _ ← checked kernel 0 (codes "ERROR writing to socket") (Call.write fd line)
  buffer' ← read_into kernel 0 empty_buffer fd 255
  show_ack buffer'

-- main of client.c
unfoldable pub client : Kernel → List Bytes → Program ℕ
unfolding connect_one send_line fgets
client kernel argv = do
  fd ← connect_one kernel argv
  tell (Call.printf (codes "Please enter the message: "))
  input ← ask kernel (Call.stdin 255)
  send_line kernel fd (fgets empty_buffer 255 (typed input)).0
