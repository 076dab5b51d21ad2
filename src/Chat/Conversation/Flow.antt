-- ===== src/Chat/Conversation/Flow.antt =====
-- One direction of a conversation: where the bytes are that have been typed here.
use computer_networks_lab.Prelude.{
  ℕ, zero, suc, ◌<◌, ◌≡◌, ◌≢◌, refl, sym, ap, ◌∙◌, ◌-◌, Option, some, List, [], ◌∷◌, ◌++◌,
  append_assoc, append-nil, length, drop, map, arith,
}
use computer_networks_lab.Libc.Text.{Bytes, IsText, codes, c_string, c_string-append, store}
use computer_networks_lab.Libc.Input.{fgets, take_line, take_line-IsText}
use computer_networks_lab.Chat.Threads.{buffer_len, recv_into, HearPc, TalkPc, Chat}
use computer_networks_lab.Chat.Programs.{show_named}
use computer_networks_lab.Chat.Display.{c_string-recv_name}

-- The buffer begins with this text and its NUL.
pub record Holds (buffer line : Bytes) : Type 0 where
  pub text : IsText line
  pub tail : Bytes
  pub begins : buffer ≡ line ++ 0 ∷ tail

-- The line that a receiver has read and not yet printed.
abbrev pub Ear : HearPc → Bytes → Bytes → Type 0
Ear HearPc.checking buffer line = Holds buffer line
Ear HearPc.printing buffer line = Holds buffer line
Ear HearPc.testing buffer line = line ≡ []
Ear HearPc.receiving buffer line = line ≡ []
Ear HearPc.leaving buffer line = line ≡ []
Ear HearPc.finished buffer line = line ≡ []

-- The line that a talker has read and not yet sent.
abbrev pub Mouth : TalkPc → Bytes → Bytes → Type 0
Mouth TalkPc.sending buffer line = Holds buffer line
Mouth TalkPc.testing buffer line = line ≡ []
Mouth TalkPc.reading buffer line = line ≡ []
Mouth TalkPc.checking buffer line = line ≡ []
Mouth TalkPc.leaving buffer line = line ≡ []
Mouth TalkPc.finished buffer line = line ≡ []

abbrev pub Carry : List Bytes → List Bytes → Type 0
Carry [] [] = Unit
Carry [] (line ∷ lines) = ⊥
Carry (frame ∷ frames) [] = ⊥
Carry (frame ∷ frames) (line ∷ lines) = Holds frame line × Carry frames lines

abbrev pub joined : List Bytes → Bytes
joined [] = []
joined (line ∷ lines) = line ++ joined lines

-- The same for lines of which the newest is first.
abbrev pub said : List Bytes → Bytes
said [] = []
said (line ∷ lines) = said lines ++ line

-- What is printed for a line of `name`.
abbrev pub headed : Bytes → Bytes → Option Bytes
headed name line = some (name ++ codes ": " ++ line)

-- The variables that a line passes on its way from a talker to a receiver.
pub record Pipe : Type 0 where
  pub input : Bytes
  pub talk_pc : TalkPc
  pub talk_buffer : Bytes
  pub frames : List Bytes
  pub hear_pc : HearPc
  pub hear_buffer : Bytes
  pub printed : List (Option Bytes)

abbrev pub pipe : Chat → List Bytes → Chat → Pipe
pipe talker frames receiver = record {
  input = talker.input;
  talk_pc = talker.talk_pc;
  talk_buffer = talker.talk_buffer;
  frames = frames;
  hear_pc = receiver.hear_pc;
  hear_buffer = receiver.hear_buffer;
  printed = receiver.printed;
}

-- Everything that has been typed is printed, or under way, or still to be read.
pub record Flow (name typed : Bytes) (p : Pipe) : Type 0 where
  -- Newest first.
  pub shown : List Bytes
  pub at_ear : Bytes
  pub way : List Bytes
  pub at_mouth : Bytes
  pub prints : p.printed ≡ map (headed name) shown
  pub ear : Ear p.hear_pc p.hear_buffer at_ear
  pub carries : Carry p.frames way
  pub mouth : Mouth p.talk_pc p.talk_buffer at_mouth
  pub unread : IsText p.input
  pub whole : typed ≡ said shown ++ (at_ear ++ (joined way ++ (at_mouth ++ p.input)))

take_line-whole : (n : ℕ) (input : Bytes) → (take_line n input).0 ++ (take_line n input).1 ≡ input
unfolding take_line
take_line-whole zero input = refl
take_line-whole (suc n) [] = refl
take_line-whole (suc n) (c ∷ input) = ground (arith, take_line-whole n input)

take_line-IsText_rest : (n : ℕ) (input : Bytes) → IsText input → IsText (take_line n input).1
unfolding take_line
take_line-IsText_rest zero input h = h
take_line-IsText_rest (suc n) [] h = tt
take_line-IsText_rest (suc n) (c ∷ input) h = ground (arith, take_line-IsText_rest n input h.1)

pub fgets-Holds :
    (b input : Bytes)
    → input ≢ []
    → IsText input
    → (line : Bytes) × Holds (fgets b buffer_len input).0 line
      × (line ++ (fgets b buffer_len input).1 ≡ input)
      × IsText (fgets b buffer_len input).1
unfolding fgets store
fgets-Holds b [] some_input text = absurd (some_input refl)
fgets-Holds b (c ∷ input) some_input text = (
  (take_line (buffer_len - 1) (c ∷ input)).0,
  record {
    text = take_line-IsText (buffer_len - 1) (c ∷ input) text;
    tail = drop (length ((take_line (buffer_len - 1) (c ∷ input)).0 ++ 0 ∷ [])) b;
    begins =
        append_assoc (take_line (buffer_len - 1) (c ∷ input)).0 (0 ∷ [])
          (drop (length ((take_line (buffer_len - 1) (c ∷ input)).0 ++ 0 ∷ [])) b);
  },
  take_line-whole (buffer_len - 1) (c ∷ input),
  take_line-IsText_rest (buffer_len - 1) (c ∷ input) text,
)

pub recv_into-Holds :
    (b frame line : Bytes) → Holds frame line → Holds (recv_into b (some frame)) line
unfolding store
recv_into-Holds b frame line h = record {
  text = h.text;
  tail = h.tail ++ drop (length frame) b;
  begins =
      ap (λ f. f ++ drop (length frame) b) h.begins
      ∙ append_assoc line (0 ∷ h.tail) (drop (length frame) b);
}

pub joined-append :
    (lines : List Bytes) (line : Bytes) → joined (lines ++ line ∷ []) ≡ joined lines ++ line
joined-append [] line = append-nil line
joined-append (x ∷ lines) line =
    ap (◌++◌ x) (joined-append lines line) ∙ sym (append_assoc x (joined lines) line)

pub Carry-none : (lines : List Bytes) → Carry [] lines → lines ≡ []
Carry-none [] c = refl
Carry-none (line ∷ lines) c = elim c [ ]

pub Carry-append :
    (frames lines : List Bytes) (frame line : Bytes)
    → Carry frames lines
    → Holds frame line
    → Carry (frames ++ frame ∷ []) (lines ++ line ∷ [])
Carry-append [] [] frame line c h = (h, tt)
Carry-append [] (l ∷ lines) frame line c h = elim c [ ]
Carry-append (f ∷ frames) [] frame line c h = elim c [ ]
Carry-append (f ∷ frames) (l ∷ lines) frame line c h =
    (c.0, Carry-append frames lines frame line c.1 h)

module _ (name : Bytes) (named : IsText name) (fits : length name < buffer_len) where
  pub show_named-Holds :
      (buffer line : Bytes) → Holds buffer line → show_named name buffer ≡ headed name line
  unfolding show_named
  show_named-Holds buffer line h =
      rw (c_string-recv_name name named fits)
        (rw (ap c_string h.begins ∙ c_string-append line h.tail h.text) refl)
