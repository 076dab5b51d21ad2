-- ===== src/GroupServer/Room/Uplink/Talking.antt =====
-- What a client of the group chat has typed and sent.
use computer_networks_lab.Prelude.{
  ◌≡◌, refl, sym, subst, ap, ◌∙◌, List, [], ◌∷◌, ◌++◌, append_assoc, Bool-cases, inl, inr, some-eq,
}
use computer_networks_lab.Libc.Text.{Bytes, IsText, c_string, c_string-append}
use computer_networks_lab.Chat.Threads.{
  TalkPc, Chat, hear_test, hear_recv, hear_check, hear_print, hear_leave, talk_test, talk_read,
  talk_send, talk_send_fails, talk_check, talk_leave, main_step,
}
use computer_networks_lab.Chat.Programs.{GroupStep}
use computer_networks_lab.Chat.Conversation.Flow.{
  Holds, Mouth, Carry, Carry-append, joined, joined-append, fgets-Holds,
}
use computer_networks_lab.GroupServer.Room.{backwards, IsApart}
use computer_networks_lab.GroupServer.Room.Uplink.{Sounds}

-- `lines` are what the frames that have been sent hold, the oldest first.
pub record Talked (typed : Bytes) (m : Chat) : Type 0 where
  pub lines : List Bytes
  pub at_mouth : Bytes
  pub carries : Carry (backwards m.sent) lines
  pub mouth : Mouth m.talk_pc m.talk_buffer at_mouth
  pub unread : IsText m.input
  pub whole : typed ≡ joined lines ++ (at_mouth ++ m.input)

-- The frames that have been sent so far stay.
abbrev pub Prefix : List Bytes → List Bytes → Type 0
Prefix xs ys = (rest : List Bytes) × (ys ≡ xs ++ rest)

module _ {typed : Bytes} {m : Chat} where
  Talked-Mouth :
      (pc : TalkPc) (x : Talked typed m) → m.talk_pc ≡ pc → Mouth pc m.talk_buffer x.at_mouth
  Talked-Mouth pc x e = subst (λ p. Mouth p m.talk_buffer x.at_mouth) e x.mouth

  -- The talker goes on with the same line.
  pub passed-Talked :
      {t : Chat} (x : Talked typed m)
      → Mouth t.talk_pc t.talk_buffer x.at_mouth
      → t.sent ≡ m.sent
      → t.input ≡ m.input
      → Talked typed t
  passed-Talked x mouth same_sent same_input = record {
    lines = x.lines;
    at_mouth = x.at_mouth;
    carries = subst (λ f. Carry (backwards f) x.lines) (sym same_sent) x.carries;
    mouth = mouth;
    unread = subst IsText (sym same_input) x.unread;
    whole = x.whole ∙ ap (λ i. joined x.lines ++ (x.at_mouth ++ i)) (sym same_input);
  }

  -- A step of the chat.
  pub acts-Talked :
      {t : Chat} (st : GroupStep m t) → IsApart st → Sounds st → Talked typed m → Talked typed t
  acts-Talked (hear_test e) l s x = passed-Talked x x.mouth refl refl
  acts-Talked (hear_recv result fits e) l s x = elim l [ ]
  acts-Talked (hear_check e) l s x = passed-Talked x x.mouth refl refl
  acts-Talked (hear_print e) l s x = passed-Talked x x.mouth refl refl
  acts-Talked (hear_leave e) l s x = passed-Talked x x.mouth refl refl
  acts-Talked (talk_test e) l s x =
      passed-Talked x
        (elim (Bool-cases m.end_com) [
          | inl y ↦ rw y (Talked-Mouth TalkPc.testing x e)
          | inr n ↦ rw n (Talked-Mouth TalkPc.testing x e)
        ])
        refl refl
  acts-Talked (talk_read e) l s x =
      let (line, holds, split, rest) = fgets-Holds m.talk_buffer m.input s x.unread in
      record {
        lines = x.lines;
        at_mouth = line;
        carries = x.carries;
        mouth = holds;
        unread = rest;
        whole =
            x.whole
            ∙ ap (λ i. joined x.lines ++ i)
                (ap (λ i. i ++ m.input) (Talked-Mouth TalkPc.reading x e) ∙ sym split);
      }
  acts-Talked (talk_send e) l s x = record {
    lines = x.lines ++ x.at_mouth ∷ [];
    at_mouth = [];
    carries =
        Carry-append (backwards m.sent) x.lines m.talk_buffer x.at_mouth x.carries
          (Talked-Mouth TalkPc.sending x e);
    mouth = refl;
    unread = x.unread;
    whole =
        x.whole
        ∙ (sym (append_assoc (joined x.lines) x.at_mouth m.input)
            ∙ ap (λ i. i ++ m.input) (sym (joined-append x.lines x.at_mouth)));
  }
  acts-Talked (talk_send_fails e) l s x = elim s [ ]
  acts-Talked (talk_check e) l s x = passed-Talked x (Talked-Mouth TalkPc.checking x e) refl refl
  acts-Talked (talk_leave e) l s x = passed-Talked x (Talked-Mouth TalkPc.leaving x e) refl refl
  acts-Talked main_step l s x = passed-Talked x x.mouth refl refl

-- A buffer holds one line.
pub Holds-unique : (buffer : Bytes) {x y : Bytes} → Holds buffer x → Holds buffer y → x ≡ y
Holds-unique buffer hx hy = some-eq (
    sym (ap c_string hx.begins ∙ c_string-append _ hx.tail hx.text)
    ∙ (ap c_string hy.begins ∙ c_string-append _ hy.tail hy.text))

-- The first frames hold the first lines.
pub Carry-prefix :
    (frames rest ls lines : List Bytes)
    → Carry frames ls
    → Carry (frames ++ rest) lines
    → Prefix ls lines
Carry-prefix [] rest [] lines c d = (lines, refl)
Carry-prefix [] rest (l ∷ ls) lines c d = elim c [ ]
Carry-prefix (f ∷ frames) rest [] lines c d = elim c [ ]
Carry-prefix (f ∷ frames) rest (l ∷ ls) [] c d = elim d [ ]
Carry-prefix (f ∷ frames) rest (l ∷ ls) (m ∷ lines) c d =
    let (more, e) = Carry-prefix frames rest ls lines c.1 d.1 in
    (more, ap (λ x. x ∷ lines) (Holds-unique f d.0 c.0) ∙ ap (◌∷◌ l) e)

-- The frame after some frames that have been sent holds a line.
pub Carry-next :
    (frames rest lines : List Bytes) (frame : Bytes)
    → Carry (frames ++ frame ∷ rest) lines
    → (line : Bytes) × Holds frame line
Carry-next [] rest [] frame c = elim c [ ]
Carry-next [] rest (l ∷ lines) frame c = (l, c.0)
Carry-next (f ∷ frames) rest [] frame c = elim c [ ]
Carry-next (f ∷ frames) rest (l ∷ lines) frame c = Carry-next frames rest lines frame c.1
