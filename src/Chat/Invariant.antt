-- ===== src/Chat/Invariant.antt =====
-- What holds in every state of a chat: who may have set END_COM, and what HEAR and TALK say.
use computer_networks_lab.Prelude.{◌≡◌, ◌↔◌, true, false, Option, arith}
use computer_networks_lab.Libc.Text.{Bytes}
use computer_networks_lab.Chat.Threads.{
  HearPc, TalkPc, Chat, Step, Reach, open_chat, hear_test, hear_recv, hear_check, hear_print,
  hear_leave, talk_test, talk_read, talk_send, talk_send_fails, talk_check, talk_leave, main_step,
  main_next, here, next, kill_talk, kill_hear, first_talk, second_hear,
}

-- HEAR and TALK are 0 exactly when their thread has ended, a thread ends only after END_COM, and
-- `chat` signals a thread only when the other one has ended.
pub record Inv (s : Chat) : Type 0 where
  pub hear_ended : (s.hear ≡ false) ↔ (s.hear_pc ≡ HearPc.finished)
  pub talk_ended : (s.talk ≡ false) ↔ (s.talk_pc ≡ TalkPc.finished)
  pub hear_leaves : s.hear_pc ≡ HearPc.leaving → s.end_com ≡ true
  pub talk_leaves : s.talk_pc ≡ TalkPc.leaving → s.end_com ≡ true
  pub hear_told : s.hear ≡ false → s.end_com ≡ true
  pub talk_told : s.talk ≡ false → s.end_com ≡ true
  pub hear_read : s.main_pc ≡ first_talk → s.hear ≡ false
  pub talk_read : s.main_pc ≡ second_hear → s.talk ≡ false
  pub talk_killed : s.main_pc ≡ kill_talk → s.hear ≡ false
  pub hear_killed : s.main_pc ≡ kill_hear → s.talk ≡ false

pub open_chat-Inv : (b c input : Bytes) → Inv (open_chat b c input)
unfolding open_chat
open_chat-Inv b c input = ground arith

module _ {show : Bytes → Option Bytes} where
  pub Step-Inv : {s t : Chat} → Step show s t → Inv s → Inv t
  unfolding main_next
  Step-Inv (hear_test e) inv = ground arith
  Step-Inv (hear_recv r f e) inv = ground arith
  Step-Inv (hear_check e) inv = ground arith
  Step-Inv (hear_print e) inv = ground arith
  Step-Inv (hear_leave e) inv = ground arith
  Step-Inv (talk_test e) inv = ground arith
  Step-Inv (talk_read e) inv = ground arith
  Step-Inv (talk_send e) inv = ground arith
  Step-Inv (talk_send_fails e) inv = ground arith
  Step-Inv (talk_check e) inv = ground arith
  Step-Inv (talk_leave e) inv = ground arith
  Step-Inv main_step inv = ground arith

  pub Reach-Inv : {s t : Chat} → Inv s → Reach show s t → Inv t
  Reach-Inv h here = h
  Reach-Inv h (next r st) = Step-Inv st (Reach-Inv h r)

  -- In every state that a chat can come to from its start, HEAR and TALK are 0 exactly when their thread
  -- has ended, a thread ends only after END_COM, and the main thread comes to a signal only when the
  -- other thread has ended.
  pub run-Inv : (b c input : Bytes) {t : Chat} → Reach show (open_chat b c input) t → Inv t
  run-Inv b c input r = Reach-Inv (open_chat-Inv b c input) r
