-- ===== src/Examples/Conversations.antt =====
-- The server of week0/beej/chat types a line, and the client prints it.
use computer_networks_lab.Prelude.{◌≡◌, refl, some, List, [], ◌∷◌, ◌++◌, arith, replicate, map}
use computer_networks_lab.Libc.Text.{Bytes, codes, c_string, store}
use computer_networks_lab.Libc.Input.{fgets, take_line}
use computer_networks_lab.Chat.Threads.{
  is_end, HearPc, TalkPc, open_chat, hear_test, hear_check, hear_print, talk_test, talk_read,
  talk_check,
}
use computer_networks_lab.Chat.Programs.{show_named, recv_name}
use computer_networks_lab.Chat.Conversation.{
  Conversation, works, sends, hears, mine, yours, Talks, greeted, then_moves,
}
use computer_networks_lab.Chat.Conversation.Flow.{said, headed}
use computer_networks_lab.Chat.Conversation.Heard.{
  IsName, Hears, beginning, Talks-Hears, Talks-said,
}

abbrev junk : Bytes
junk = replicate 256 7

server-IsName : IsName (codes "SERVER")
server-IsName = record { text = omega arith; fits = omega arith }

client-IsName : IsName (codes "CLIENT")
client-IsName = record { text = omega arith; fits = omega arith }

abbrev start : Conversation
start =
    beginning server-IsName client-IsName (codes "hi\nthere\n") (codes "yo\n") junk junk junk junk

-- The server types a line, the client prints it and waits, and so does the server.
one_line :
    (s : Conversation) × Talks (show_named (codes "CLIENT")) (show_named (codes "SERVER")) start s
    × (s.outgoing ≡ [])
    × (s.here.talk_pc ≡ TalkPc.reading)
    × (s.there.hear_pc ≡ HearPc.receiving)
    × (s.there.printed ≡ some (codes "SERVER: hi\n") ∷ [])
unfolding open_chat fgets take_line store show_named recv_name c_string is_end
one_line = (
  _,
  then_moves
      (then_moves
        (then_moves
          (then_moves
            (then_moves
              (then_moves
                (then_moves
                  (then_moves
                    (then_moves (then_moves greeted (mine (works (talk_test refl) tt)))
                      (mine (works (talk_read refl) (λ e. cc))))
                    (mine (sends refl)))
                  (yours (works (hear_test refl) tt)))
                (yours (hears _ [] refl (omega arith) refl)))
              (yours (works (hear_check refl) tt)))
            (yours (works (hear_print refl) tt)))
          (yours (works (hear_test refl) tt)))
        (mine (works (talk_check refl) tt)))
      (mine (works (talk_test refl) tt)),
  refl,
  refl,
  refl,
  refl,
)

Talks-Hears_example :
    Hears (codes "SERVER") (codes "hi\nthere\n") one_line.0.there.printed
    × Hears (codes "CLIENT") (codes "yo\n") one_line.0.here.printed
Talks-Hears_example =
    Talks-Hears server-IsName client-IsName (codes "hi\nthere\n") (codes "yo\n") junk junk junk junk
      (omega arith) (omega arith) one_line.1

Talks-said_example :
    (lines : List Bytes) × (one_line.0.there.printed ≡ map (headed (codes "SERVER")) lines)
    × (codes "hi\nthere\n" ≡ said lines ++ one_line.0.here.input)
Talks-said_example =
    Talks-said server-IsName client-IsName (codes "hi\nthere\n") (codes "yo\n") junk junk junk junk
      (omega arith) (omega arith) one_line.1 one_line.2 one_line.3 one_line.4
