-- ===== src/Chat/Watch.antt =====
-- The loop of `chat` that watches HEAR and TALK.
use computer_networks_lab.Prelude.{
  ℕ, zero, suc, ◌≤◌, ◌≡◌, refl, ◌∙◌, ◌||◌, Bool, true, false, Option, some, ◌++◌, arith,
  if◌then◌else◌, length,
}
use computer_networks_lab.Libc.Text.{Bytes, codes, store}
use computer_networks_lab.Libc.Input.{take_line, fgets}
use computer_networks_lab.Chat.Threads.{
  buffer_len, is_end, HearPc, MainPc, Chat, Step, Reach, open_chat, hear_test, hear_recv,
  hear_check, hear_print, hear_leave, talk_test, talk_read, talk_send, talk_send_fails, talk_check,
  talk_leave, main_step, main_next, here, next, first_hear, first_talk, second_talk, second_hear,
  sleeping, kill_talk, kill_hear,
}

-- The main thread is still in its loop.
abbrev pub is_looping : MainPc → Bool
is_looping kill_talk = false
is_looping kill_hear = false
is_looping pc = true

module _ (show : Bytes → Option Bytes) where
  record Stuck (s : Chat) : Type 0 where
    loops : is_looping s.main_pc ≡ true
    hear : s.hear ≡ false
    talk : s.talk ≡ false

  main-looping :
      (hear talk : Bool) (pc : MainPc)
      → hear ≡ false
      → talk ≡ false
      → is_looping pc ≡ true
      → is_looping (main_next hear talk pc) ≡ true
  unfolding main_next
  main-looping hear talk first_hear p q r = ground arith
  main-looping hear talk _ p q r = ground arith

  Step-Stuck : {s t : Chat} → Step show s t → Stuck s → Stuck t
  Step-Stuck {s} main_step h = record {
    loops = main-looping s.hear s.talk s.main_pc h.hear h.talk h.loops;
    hear = h.hear;
    talk = h.talk;
  }
  Step-Stuck (hear_leave e) h = record { loops = h.loops; hear = refl; talk = h.talk }
  Step-Stuck (talk_leave e) h = record { loops = h.loops; hear = h.hear; talk = refl }
  Step-Stuck (hear_test e) h = record { loops = h.loops; hear = h.hear; talk = h.talk }
  Step-Stuck (hear_recv r f e) h = record { loops = h.loops; hear = h.hear; talk = h.talk }
  Step-Stuck (hear_check e) h = record { loops = h.loops; hear = h.hear; talk = h.talk }
  Step-Stuck (hear_print e) h = record { loops = h.loops; hear = h.hear; talk = h.talk }
  Step-Stuck (talk_test e) h = record { loops = h.loops; hear = h.hear; talk = h.talk }
  Step-Stuck (talk_read e) h = record { loops = h.loops; hear = h.hear; talk = h.talk }
  Step-Stuck (talk_send e) h = record { loops = h.loops; hear = h.hear; talk = h.talk }
  Step-Stuck (talk_send_fails e) h = record { loops = h.loops; hear = h.hear; talk = h.talk }
  Step-Stuck (talk_check e) h = record { loops = h.loops; hear = h.hear; talk = h.talk }

  Reach-Stuck : {s t : Chat} → Stuck s → Reach show s t → Stuck t
  Reach-Stuck h here = h
  Reach-Stuck h (next r st) = Step-Stuck st (Reach-Stuck h r)

  -- Once both threads have ended while the main thread is in its loop, it stays there: from then on
  -- no state is reached in which `chat` has left the loop.
  pub both_ended_hangs :
      {s t : Chat}
      → is_looping s.main_pc ≡ true
      → s.hear ≡ false
      → s.talk ≡ false
      → Reach show s t
      → is_looping t.main_pc ≡ true
  both_ended_hangs l h k r = (Reach-Stuck (record { loops = l; hear = h; talk = k }) r).loops

  -- After the talker has read a line that begins with #END, while the receiver waits in recv.
  talk_ends :
      (b c rest : Bytes)
      → (s : Chat) × Reach show (open_chat b c (codes "#END" ++ rest)) s
        × (s.main_pc ≡ first_hear)
        × (s.talk ≡ false)
        × (s.end_com ≡ true)
        × (s.hear_pc ≡ HearPc.receiving)
  unfolding open_chat is_end fgets take_line store
  talk_ends b c rest =
      let asked = next (next here (hear_test refl)) (talk_test refl) in
      let told = next (next (next asked (talk_read refl)) (talk_send refl)) (talk_check refl) in
      (_, next (next told (talk_test refl)) (talk_leave refl), refl, refl, refl, refl)

  leaves : (b : Bool) → (if b || true then HearPc.leaving else HearPc.receiving) ≡ HearPc.leaving
  leaves true = refl
  leaves false = refl

  -- The receiver ends after one more frame, once END_COM is set.
  hear_ends :
      {init : Chat} (s : Chat) (frame : Bytes)
      → Reach show init s
      → s.end_com ≡ true
      → s.hear_pc ≡ HearPc.receiving
      → length frame ≤ buffer_len
      → (t : Chat) × Reach show init t
        × (t.main_pc ≡ s.main_pc)
        × (t.talk ≡ s.talk)
        × (t.hear ≡ false)
  hear_ends s frame r told waits fits =
      let printed =
        next (next (next r (hear_recv (some frame) fits waits)) (hear_check refl))
          (hear_print refl) in
      (_, next (next printed (hear_test refl)) (hear_leave (rw told (leaves _))), refl, refl, refl)

  -- A user who ends the chat by a line that begins with #END can bring it there: whatever the
  -- peer's next frame is, both threads can end before the main thread looks at HEAR and TALK.
  pub both_end :
      (b c rest frame : Bytes)
      → length frame ≤ buffer_len
      → (s : Chat) × Reach show (open_chat b c (codes "#END" ++ rest)) s
        × (is_looping s.main_pc ≡ true)
        × (s.hear ≡ false)
        × (s.talk ≡ false)
  both_end b c rest frame fits =
      let (s, r, looks, talk, told, waits) = talk_ends b c rest in
      let (t, r', same, still, hear) = hear_ends s frame r told waits fits in
      (t, r', cc, hear, still ∙ talk)

-- The main thread alone, `n` steps, while HEAR and TALK keep their values.
unfoldable pub main_rounds : ℕ → Bool → Bool → MainPc → MainPc
main_rounds zero hear talk pc = pc
main_rounds (suc n) hear talk pc = main_rounds n hear talk (main_next hear talk pc)

-- If one thread has ended and the other has not, then wherever the main thread is in its loop, four
-- of its steps bring it to the pthread_kill of the thread that is left.
pub one_ended_signals :
    (pc : MainPc)
    → is_looping pc ≡ true
    → (main_rounds 4 false true pc ≡ kill_talk) × (main_rounds 4 true false pc ≡ kill_hear)
unfolding main_rounds main_next
one_ended_signals first_hear h = (refl, refl)
one_ended_signals first_talk h = (refl, refl)
one_ended_signals second_talk h = (refl, refl)
one_ended_signals second_hear h = (refl, refl)
one_ended_signals sleeping h = (refl, refl)
one_ended_signals kill_talk h = absurd (cc)
one_ended_signals kill_hear h = absurd (cc)
