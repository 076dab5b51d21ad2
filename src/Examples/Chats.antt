-- ===== src/Examples/Chats.antt =====
-- The two-way chat.
use computer_networks_lab.Prelude.{
  ◌≤◌, ◌≡◌, refl, true, false, some, [], ◌∷◌, ◌++◌, arith, replicate,
}
use computer_networks_lab.Libc.Text.{store, Bytes, codes}
use computer_networks_lab.Libc.Input.{take_line, fgets}
use computer_networks_lab.Chat.Threads.{
  is_end, hear_recv, hear_check, talk_send, talk_check, next, Chat, Reach, open_chat, here,
  hear_test, talk_test, talk_read, sleeping, kill_talk, kill_hear,
}
use computer_networks_lab.Chat.Programs.{show_named, show_plain}
use computer_networks_lab.Chat.Invariant.{Inv, run-Inv}
use computer_networks_lab.Chat.Watch.{
  is_looping, both_ended_hangs, both_end, main_rounds, one_ended_signals,
}
use computer_networks_lab.Chat.Datagram.{
  udp_hear_test, udp_talk_test, udp_read, UdpChat, UdpReach, open_udp, begun, after, udp_recv,
  udp_send, Replies, latest_sender, UdpReach-Replies,
}
use computer_networks_lab.Chat.Ending.{thread_steps, end_com_ends}

abbrev junk : Bytes
junk = replicate 256 7

abbrev opened : Chat
opened = open_chat junk junk (codes "hello\n")

-- A chat whose threads have both ended while the main thread sleeps.
record Ended : Type 0 where
  state : Chat
  looping : is_looping state.main_pc ≡ true
  no_hear : state.hear ≡ false
  no_talk : state.talk ≡ false

ended : Ended
ended =
    let (s, r, looping, no_hear, no_talk) =
      both_end show_plain junk junk (codes "\n") [] (omega arith) in
    record { state = s; looping = looping; no_hear = no_hear; no_talk = no_talk }

-- Both threads of a chat with a user who typed #END, and a peer whose last frame was empty.
both_end_example :
    (s : Chat) × Reach show_plain (open_chat junk junk (codes "#END" ++ codes "\n")) s
    × (is_looping s.main_pc ≡ true)
    × (s.hear ≡ false)
    × (s.talk ≡ false)
both_end_example = both_end show_plain junk junk (codes "\n") [] (omega arith)

both_ended_hangs_example : is_looping ended.state.main_pc ≡ true
both_ended_hangs_example =
    both_ended_hangs show_plain {s = ended.state} {t = ended.state} ended.looping ended.no_hear
      ended.no_talk here

one_ended_signals_example :
    (main_rounds 4 false true sleeping ≡ kill_talk)
    × (main_rounds 4 true false sleeping ≡ kill_hear)
one_ended_signals_example = one_ended_signals sleeping refl

show_named_line :
    show_named (codes "SERVER") (codes "hi\n" ++ 0 ∷ junk) ≡ some (codes "SERVER: hi\n")
unfolding show_named
show_named_line = refl

-- The first datagram comes from another host than the chat was opened with; then one is sent.
redirected :
    (t : UdpChat) × UdpReach (codes "SERVER") (open_udp opened (codes "10.0.0.1")) t
    × (t.peer ≡ codes "10.0.0.9")
unfolding open_udp open_chat
redirected = (
  _,
  after
      (after
        (after
          (after (after begun (udp_hear_test refl))
            (udp_recv (codes "10.0.0.9") (codes "hi") (omega arith) refl))
          (udp_talk_test refl))
        (udp_read refl))
      (udp_send refl),
  refl,
)

UdpReach-Replies_example :
    Replies (codes "10.0.0.1") redirected.0.wire
    × (redirected.0.peer ≡ latest_sender (codes "10.0.0.1") redirected.0.wire)
UdpReach-Replies_example = UdpReach-Replies (codes "SERVER") (codes "10.0.0.1") opened redirected.1

-- The user has typed #END, and the receiver waits in recv.
told : (s : Chat) × Reach show_plain (open_chat junk junk (codes "#END\n")) s × (s.end_com ≡ true)
unfolding open_chat is_end fgets take_line store
told = (
  _,
  next
      (next (next (next (next here (hear_test refl)) (talk_test refl)) (talk_read refl))
        (talk_send refl))
      (talk_check refl),
  refl,
)

run-Inv_example : Inv told.0
run-Inv_example = run-Inv junk junk (codes "#END\n") told.1

last_frame : (t : Chat) × Reach show_plain told.0 t
unfolding told open_chat
last_frame =
    (_, next (next here (hear_recv (some (codes "bye")) (omega arith) refl)) (hear_check refl))

end_com_ends_example :
    (thread_steps last_frame.1 ≤ 10)
    × ((u : Chat) × Reach show_plain last_frame.0 u × (u.hear ≡ false) × (u.talk ≡ false))
end_com_ends_example = end_com_ends show_plain junk junk (codes "#END\n") told.1 told.2 last_frame.1
