-- ===== src/Chat/Conversation/Speaking.antt =====
-- Each step of a talker passes the lines on.
use computer_networks_lab.Prelude.{
  ◌≡◌, ◌≢◌, refl, sym, subst, ap, ◌∙◌, Option, List, [], ◌∷◌, ◌++◌, append_assoc, Bool-cases, inl,
  inr,
}
use computer_networks_lab.Libc.Text.{Bytes}
use computer_networks_lab.Libc.Input.{fgets}
use computer_networks_lab.Chat.Threads.{
  buffer_len, TalkPc, Chat, Step, hear_test, hear_recv, hear_check, hear_print, hear_leave,
  talk_test, talk_read, talk_send, talk_send_fails, talk_check, talk_leave, main_step,
}
use computer_networks_lab.Chat.Conversation.{IsLocal}
use computer_networks_lab.Chat.Conversation.Flow.{
  Mouth, joined, said, Pipe, pipe, Flow, fgets-Holds, joined-append, Carry-append,
}

module _ {name typed : Bytes} where
  -- The talker goes on with the same line.
  talker-Flow :
      {p : Pipe} (pc : TalkPc) (f : Flow name typed p)
      → Mouth pc p.talk_buffer f.at_mouth
      → Flow name typed (record p { talk_pc = pc })
  talker-Flow pc f mouth = record {
    shown = f.shown;
    at_ear = f.at_ear;
    way = f.way;
    at_mouth = f.at_mouth;
    prints = f.prints;
    ear = f.ear;
    carries = f.carries;
    mouth = mouth;
    unread = f.unread;
    whole = f.whole;
  }

  pub Flow-Mouth :
      {p : Pipe} (pc : TalkPc) (f : Flow name typed p)
      → p.talk_pc ≡ pc
      → Mouth pc p.talk_buffer f.at_mouth
  Flow-Mouth {p} pc f e = subst (λ x. Mouth x p.talk_buffer f.at_mouth) e f.mouth

  read-Flow :
      {p : Pipe} (f : Flow name typed p)
      → p.talk_pc ≡ TalkPc.reading
      → p.input ≢ []
      → Flow name typed (record p {
        talk_pc = TalkPc.sending;
        talk_buffer = (fgets p.talk_buffer buffer_len p.input).0;
        input = (fgets p.talk_buffer buffer_len p.input).1;
      })
  read-Flow {p} f e some_input =
      let (line, holds, split, rest) = fgets-Holds p.talk_buffer p.input some_input f.unread in
      record {
        shown = f.shown;
        at_ear = f.at_ear;
        way = f.way;
        at_mouth = line;
        prints = f.prints;
        ear = f.ear;
        carries = f.carries;
        mouth = holds;
        unread = rest;
        whole =
            f.whole
            ∙ ap (λ x. said f.shown ++ (f.at_ear ++ (joined f.way ++ x)))
                (ap (λ x. x ++ p.input) (Flow-Mouth TalkPc.reading f e) ∙ sym split);
      }

  pub sent-Flow :
      {p : Pipe} (f : Flow name typed p)
      → p.talk_pc ≡ TalkPc.sending
      → Flow name typed
          (record p { talk_pc = TalkPc.checking; frames = p.frames ++ p.talk_buffer ∷ [] })
  sent-Flow {p} f e = record {
    shown = f.shown;
    at_ear = f.at_ear;
    way = f.way ++ f.at_mouth ∷ [];
    at_mouth = [];
    prints = f.prints;
    ear = f.ear;
    carries =
        Carry-append p.frames f.way p.talk_buffer f.at_mouth f.carries
          (Flow-Mouth TalkPc.sending f e);
    mouth = refl;
    unread = f.unread;
    whole =
        f.whole
        ∙ ap (λ x. said f.shown ++ (f.at_ear ++ x))
            (sym (append_assoc (joined f.way) f.at_mouth p.input)
              ∙ ap (λ x. x ++ p.input) (sym (joined-append f.way f.at_mouth)));
  }

  -- A step of the talker.
  pub talks-Flow :
      {show : Bytes → Option Bytes} {a c : Chat} (b : Chat) (frames : List Bytes)
      (st : Step show a c)
      → IsLocal st
      → Flow name typed (pipe a frames b)
      → Flow name typed (pipe c frames b)
  talks-Flow b frames (hear_test e) l f = f
  talks-Flow b frames (hear_recv result fits e) l f = elim l [ ]
  talks-Flow b frames (hear_check e) l f = f
  talks-Flow b frames (hear_print e) l f = f
  talks-Flow b frames (hear_leave e) l f = f
  talks-Flow {a = a} b frames (talk_test e) l f = talker-Flow _ f (elim (Bool-cases a.end_com) [
    | inl y ↦ rw y (Flow-Mouth TalkPc.testing f e)
    | inr n ↦ rw n (Flow-Mouth TalkPc.testing f e)
  ])
  talks-Flow b frames (talk_read e) l f = read-Flow f e l
  talks-Flow b frames (talk_send e) l f = elim l [ ]
  talks-Flow b frames (talk_send_fails e) l f = elim l [ ]
  talks-Flow b frames (talk_check e) l f =
      talker-Flow TalkPc.testing f (Flow-Mouth TalkPc.checking f e)
  talks-Flow b frames (talk_leave e) l f =
      talker-Flow TalkPc.finished f (Flow-Mouth TalkPc.leaving f e)
  talks-Flow b frames main_step l f = f
