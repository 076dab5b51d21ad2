-- ===== src/Chat/Programs.antt =====
-- The two TCP programs as instances of the threads: they differ in what the receiver prints.
use computer_networks_lab.Prelude.{Option, none, some, ◌++◌, replicate}
use computer_networks_lab.Libc.Text.{Bytes, codes, c_string, store}
use computer_networks_lab.Chat.Threads.{buffer_len, Chat, Step}

-- RECV_NAME after strncpy (RECV_NAME, recv, recv_len): a global buffer, all NUL before.
unfoldable pub recv_name : Bytes → Bytes
unfolding store
recv_name recv = store recv (replicate buffer_len 0)

abbrev joined : Option Bytes → Option Bytes → Option Bytes
joined none text = none
joined (some name) none = none
joined (some name) (some text) = some (name ++ codes ": " ++ text)

-- printf ("%s: %s", RECV_NAME, buffer)
unfoldable pub show_named : Bytes → Bytes → Option Bytes
unfolding recv_name c_string
show_named recv buffer = joined (c_string (recv_name recv)) (c_string buffer)

-- printf ("%s", buffer), in the group chat.
unfoldable pub show_plain : Bytes → Option Bytes
unfolding c_string
show_plain buffer = c_string buffer

-- week0/beej/chat/chat.c; `recv` is "SERVER" in the client and "CLIENT" in the server.
abbrev pub PairStep : Bytes → Chat → Chat → Type 0
PairStep recv = Step (show_named recv)

-- week0/beej/group_chat/chat.c
abbrev pub GroupStep : Chat → Chat → Type 0
GroupStep = Step show_plain
