-- ===== src/GroupServer/Room/Printing.antt =====
-- The steps of a chat of the room but its reads.
use computer_networks_lab.Prelude.{
  ◌≡◌, Bool, true, arith, refl, ap, ◌∙◌, some, List, [], ◌∷◌, ◌++◌, map, Bool-cases, inl, inr,
}
use computer_networks_lab.Libc.Text.{Bytes, c_string, c_string-append}
use computer_networks_lab.Chat.Threads.{
  HearPc, Chat, hear_test, hear_recv, hear_check, hear_print, hear_leave, talk_test, talk_read,
  talk_send, talk_send_fails, talk_check, talk_leave, main_step,
}
use computer_networks_lab.Chat.Programs.{GroupStep, show_plain}
use computer_networks_lab.Chat.Conversation.Flow.{Holds}
use computer_networks_lab.GroupServer.Room.{IsApart}
use computer_networks_lab.GroupServer.Room.Reading.{
  terminated, Reads, Reads-Unprinted, passed-Reads,
}

module _ {greeted : Bool} {sent : List Bytes} {m : Chat} where
  line_printed-Reads :
      (h : Reads greeted sent m) (line : Bytes)
      → h.ear ≡ line ∷ []
      → Holds m.hear_buffer line
      → Reads greeted sent
          (record m { hear_pc = HearPc.testing; printed = show_plain m.hear_buffer ∷ m.printed })
  unfolding show_plain
  line_printed-Reads h line one holds = record {
    lines = line ∷ h.lines;
    ear = [];
    rest = h.rest;
    welcome = h.welcome;
    once = h.once;
    before = λ no. absurd (cc (one, (h.before no).1));
    prints =
        ap (λ p. p ∷ m.printed)
          (ap c_string holds.begins ∙ c_string-append line holds.tail holds.text)
        ∙ ap (◌∷◌ (some line)) h.prints;
    unprinted = refl;
    took = h.took ∙ ap (λ l. map terminated (l ++ h.lines)) one;
    begins = h.begins;
  }

  greeting_printed-Reads :
      (h : Reads greeted sent m)
      → greeted ≡ true
      → h.ear ≡ []
      → h.lines ≡ []
      → h.welcome ≡ []
      → Reads greeted sent
          (record m { hear_pc = HearPc.testing; printed = show_plain m.hear_buffer ∷ m.printed })
  greeting_printed-Reads h g quiet first none_yet = record {
    lines = [];
    ear = [];
    rest = h.rest;
    welcome = show_plain m.hear_buffer ∷ [];
    once = omega arith;
    before = λ no. cc;
    prints =
        ap (◌∷◌ (show_plain m.hear_buffer))
          (h.prints ∙ (ap (λ l. map some l ++ h.welcome) first ∙ none_yet));
    unprinted = refl;
    took = h.took ∙ (ap (λ l. map terminated (l ++ h.lines)) quiet ∙ ap (map terminated) first);
    begins = h.begins;
  }

  printed-Reads :
      (h : Reads greeted sent m)
      → m.hear_pc ≡ HearPc.printing
      → Reads greeted sent
          (record m { hear_pc = HearPc.testing; printed = show_plain m.hear_buffer ∷ m.printed })
  printed-Reads h at = elim (Reads-Unprinted HearPc.printing h at) [
    | inl (line, one, holds) ↦ line_printed-Reads h line one holds
    | inr (g, quiet, first, none_yet) ↦ greeting_printed-Reads h g quiet first none_yet
  ]

  -- Any other step of a chat.
  pub acts-Reads :
      {t : Chat} (st : GroupStep m t) → IsApart st → Reads greeted sent m → Reads greeted sent t
  acts-Reads (hear_test e) l h =
      passed-Reads h
        (elim (Bool-cases m.end_com) [
          | inl y ↦ rw y (Reads-Unprinted HearPc.testing h e)
          | inr n ↦ rw n (Reads-Unprinted HearPc.testing h e)
        ])
        refl refl
  acts-Reads (hear_recv result fits e) l h = elim l [ ]
  acts-Reads (hear_check e) l h = passed-Reads h (Reads-Unprinted HearPc.checking h e) refl refl
  acts-Reads (hear_print e) l h = printed-Reads h e
  acts-Reads (hear_leave e) l h = passed-Reads h (Reads-Unprinted HearPc.leaving h e) refl refl
  acts-Reads (talk_test e) l h = passed-Reads h h.unprinted refl refl
  acts-Reads (talk_read e) l h = passed-Reads h h.unprinted refl refl
  acts-Reads (talk_send e) l h = passed-Reads h h.unprinted refl refl
  acts-Reads (talk_send_fails e) l h = passed-Reads h h.unprinted refl refl
  acts-Reads (talk_check e) l h = passed-Reads h h.unprinted refl refl
  acts-Reads (talk_leave e) l h = passed-Reads h h.unprinted refl refl
  acts-Reads main_step l h = passed-Reads h h.unprinted refl refl
