-- ===== src/Lab/Date.antt =====
-- week0/q2: the client asks for the date, and the server sends it as a text. What localtime gives is
-- a parameter; years before 1900, whose tm_year is negative, are left out.
use computer_networks_lab.Prelude.{ℕ, List, [], ◌∷◌, ◌++◌}
use computer_networks_lab.Libc.Text.{Bytes, codes, store, c_string, snprintf}
use computer_networks_lab.Libc.Decimal.{decimal}
use computer_networks_lab.Os.{Call, Kernel, Program, return, tell, need, ◌>>=◌, ◌>>◌}
use computer_networks_lab.Lab.Opening.{
  buffer_size, empty_buffer, checked, accept_one, connect_one, read_into,
}
use computer_networks_lab.Lab.Greeting.{show_ack}

-- struct tm
pub record Tm : Type 0 where
  pub tm_mday : ℕ
  pub tm_mon : ℕ
  pub tm_year : ℕ
  pub tm_hour : ℕ
  pub tm_min : ℕ
  pub tm_sec : ℕ

-- "now %d-%d-%d %d:%d:%d"
unfoldable pub date_text : Tm → Bytes
date_text t =
    codes "now "
    ++ (decimal t.tm_mday
        ++ (codes "-"
            ++ (decimal t.tm_mon
                ++ (codes "-"
                    ++ (decimal t.tm_year
                        ++ (codes " "
                            ++ (decimal t.tm_hour
                                ++ (codes ":"
                                    ++ (decimal t.tm_min
                                        ++ (codes ":" ++ (decimal t.tm_sec ++ [])))))))))))

-- main of server.c after its read. `date` is not initialised, and all of it is written.
unfoldable pub send_date : Kernel → Tm → Bytes → ℕ → Bytes → Program ℕ
unfolding date_text
send_date kernel now date fd buffer = do
  request ← need (c_string buffer)
  tell (Call.printf (codes "Client: " ++ request ++ codes "\n"))
  tell Call.localtime
  _ ←
      checked kernel 1 (codes "ERROR writing to socket")
        (Call.write fd (snprintf date buffer_size (date_text now)))
  return 0

-- main of server.c
unfoldable pub date_server : Kernel → Tm → Bytes → List Bytes → Program ℕ
unfolding accept_one send_date
date_server kernel now date argv = do
  fd ← accept_one kernel argv
  buffer ← read_into kernel 1 empty_buffer fd 255
  send_date kernel now date fd buffer

abbrev pub request : Bytes
request = codes "Send me current date please!"

-- main of client.c
unfoldable pub date_client : Kernel → List Bytes → Program ℕ
unfolding connect_one show_ack
date_client kernel argv = do
  fd ← connect_one kernel argv
  text ← need (c_string (store (request ++ 0 ∷ []) empty_buffer))
  _ ← checked kernel 0 (codes "ERROR writing to socket") (Call.write fd text)
  buffer ← read_into kernel 0 empty_buffer fd 255
  show_ack buffer
