-- ===== src/Chat/Conversation/Passing.antt =====
-- Each step of a receiver passes the lines on.
use computer_networks_lab.Prelude.{
  ◌<◌, ◌≡◌, refl, sym, subst, ap, ◌∙◌, some, List, [], ◌∷◌, ◌++◌, append_assoc, length, Bool-cases,
  inl, inr,
}
use computer_networks_lab.Libc.Text.{Bytes, IsText}
use computer_networks_lab.Chat.Threads.{
  buffer_len, recv_into, HearPc, Chat, Step, hear_test, hear_recv, hear_check, hear_print,
  hear_leave, talk_test, talk_read, talk_send, talk_send_fails, talk_check, talk_leave, main_step,
}
use computer_networks_lab.Chat.Programs.{show_named}
use computer_networks_lab.Chat.Conversation.{IsLocal}
use computer_networks_lab.Chat.Conversation.Flow.{
  Ear, Carry, joined, said, headed, Pipe, pipe, Flow, recv_into-Holds, show_named-Holds,
}

module _ {name typed : Bytes} where
  -- The receiver goes on with the same line.
  receiver-Flow :
      {p : Pipe} (pc : HearPc) (f : Flow name typed p)
      → Ear pc p.hear_buffer f.at_ear
      → Flow name typed (record p { hear_pc = pc })
  receiver-Flow pc f ear = record {
    shown = f.shown;
    at_ear = f.at_ear;
    way = f.way;
    at_mouth = f.at_mouth;
    prints = f.prints;
    ear = ear;
    carries = f.carries;
    mouth = f.mouth;
    unread = f.unread;
    whole = f.whole;
  }

  pub Flow-Ear :
      {p : Pipe} (pc : HearPc) (f : Flow name typed p)
      → p.hear_pc ≡ pc
      → Ear pc p.hear_buffer f.at_ear
  Flow-Ear {p} pc f e = subst (λ x. Ear x p.hear_buffer f.at_ear) e f.ear

  pub heard-Flow :
      {p : Pipe} (frame : Bytes) (rest : List Bytes) (f : Flow name typed p)
      → p.frames ≡ frame ∷ rest
      → p.hear_pc ≡ HearPc.receiving
      → Flow name typed (record p {
        frames = rest;
        hear_pc = HearPc.checking;
        hear_buffer = recv_into p.hear_buffer (some frame);
      })
  heard-Flow {p} frame rest f e at = go f.way f.whole (subst (λ fs. Carry fs f.way) e f.carries)
    where
      go :
          (way : List Bytes)
          → typed ≡ said f.shown ++ (f.at_ear ++ (joined way ++ (f.at_mouth ++ p.input)))
          → Carry (frame ∷ rest) way
          → Flow name typed (record p {
            frames = rest;
            hear_pc = HearPc.checking;
            hear_buffer = recv_into p.hear_buffer (some frame);
          })
      go [] whole c = elim c [ ]
      go (line ∷ way) whole c = record {
        shown = f.shown;
        at_ear = line;
        way = way;
        at_mouth = f.at_mouth;
        prints = f.prints;
        ear = recv_into-Holds p.hear_buffer frame line c.0;
        carries = c.1;
        mouth = f.mouth;
        unread = f.unread;
        whole =
            whole
            ∙ ap (◌++◌ (said f.shown)) (
                ap (λ x. x ++ (line ++ joined way ++ (f.at_mouth ++ p.input)))
                  (Flow-Ear HearPc.receiving f at)
                ∙ append_assoc line (joined way) (f.at_mouth ++ p.input));
      }

  module _ (named : IsText name) (fits : length name < buffer_len) where
    printed-Flow :
        {p : Pipe} (f : Flow name typed p)
        → p.hear_pc ≡ HearPc.printing
        → Flow name typed (record p {
          hear_pc = HearPc.testing;
          printed = show_named name p.hear_buffer ∷ p.printed;
        })
    printed-Flow {p} f e = record {
      shown = f.at_ear ∷ f.shown;
      at_ear = [];
      way = f.way;
      at_mouth = f.at_mouth;
      prints =
          ap (λ x. x ∷ p.printed)
            (show_named-Holds name named fits p.hear_buffer f.at_ear (Flow-Ear HearPc.printing f e))
          ∙ ap (◌∷◌ (headed name f.at_ear)) f.prints;
      ear = refl;
      carries = f.carries;
      mouth = f.mouth;
      unread = f.unread;
      whole =
          f.whole
          ∙ sym (append_assoc (said f.shown) f.at_ear (joined f.way ++ (f.at_mouth ++ p.input)));
    }

    -- A step of the receiver.
    pub hears-Flow :
        {b c : Chat} (a : Chat) (frames : List Bytes) (st : Step (show_named name) b c)
        → IsLocal st
        → Flow name typed (pipe a frames b)
        → Flow name typed (pipe a frames c)
    hears-Flow {b = b} a frames (hear_test e) l f = receiver-Flow _ f (elim (Bool-cases b.end_com) [
      | inl y ↦ rw y (Flow-Ear HearPc.testing f e)
      | inr n ↦ rw n (Flow-Ear HearPc.testing f e)
    ])
    hears-Flow a frames (hear_recv result fits' e) l f = elim l [ ]
    hears-Flow a frames (hear_check e) l f =
        receiver-Flow HearPc.printing f (Flow-Ear HearPc.checking f e)
    hears-Flow a frames (hear_print e) l f = printed-Flow f e
    hears-Flow a frames (hear_leave e) l f =
        receiver-Flow HearPc.finished f (Flow-Ear HearPc.leaving f e)
    hears-Flow a frames (talk_test e) l f = f
    hears-Flow a frames (talk_read e) l f = f
    hears-Flow a frames (talk_send e) l f = elim l [ ]
    hears-Flow a frames (talk_send_fails e) l f = elim l [ ]
    hears-Flow a frames (talk_check e) l f = f
    hears-Flow a frames (talk_leave e) l f = f
    hears-Flow a frames main_step l f = f
