-- ===== src/GroupServer/Room/Reading.antt =====
-- What one chat of the room has read of what has been sent to it, and printed.
use computer_networks_lab.Prelude.{
  ◌≡◌, ◌≤◌, ◌⊎◌, Option, Bool, true, false, length, refl, sym, subst, ap, ◌∙◌, some, List, [], ◌∷◌,
  ◌++◌, append_assoc, map, All, inl, inr,
}
use computer_networks_lab.Libc.Text.{Bytes}
use computer_networks_lab.Chat.Threads.{HearPc, Chat}
use computer_networks_lab.Chat.Conversation.Flow.{Holds, recv_into-Holds}
use computer_networks_lab.GroupServer.Threads.Frames.{IsFrame}
use computer_networks_lab.GroupServer.Room.{backwards, take_frame, take_greeting}

-- A line as the server sends it.
abbrev pub terminated : Bytes → Bytes
terminated line = line ++ 0 ∷ []

-- The line that the receiver has read and not yet printed, or the greeting.
abbrev Unprinted : Bool → List (Option Bytes) → List Bytes → HearPc → Bytes → List Bytes → Type 0
Unprinted greeted welcome lines HearPc.checking buffer ear =
    ((line : Bytes) × (ear ≡ line ∷ []) × Holds buffer line)
    ⊎ ((greeted ≡ true) × (ear ≡ []) × (lines ≡ []) × (welcome ≡ []))
Unprinted greeted welcome lines HearPc.printing buffer ear =
    ((line : Bytes) × (ear ≡ line ∷ []) × Holds buffer line)
    ⊎ ((greeted ≡ true) × (ear ≡ []) × (lines ≡ []) × (welcome ≡ []))
Unprinted greeted welcome lines HearPc.testing buffer ear = ear ≡ []
Unprinted greeted welcome lines HearPc.receiving buffer ear = ear ≡ []
Unprinted greeted welcome lines HearPc.leaving buffer ear = ear ≡ []
Unprinted greeted welcome lines HearPc.finished buffer ear = ear ≡ []

-- `lines` has the newest first; `welcome` is the print of the greeting.
pub record Reads (greeted : Bool) (sent : List Bytes) (m : Chat) : Type 0 where
  pub lines : List Bytes
  pub ear : List Bytes
  pub rest : List Bytes
  pub welcome : List (Option Bytes)
  pub once : length welcome ≤ 1
  pub prints : m.printed ≡ map some lines ++ welcome
  pub unprinted : Unprinted greeted welcome lines m.hear_pc m.hear_buffer ear
  pub took : m.received ≡ map terminated (ear ++ lines)
  pub begins : sent ≡ backwards m.received ++ rest
  pub before : greeted ≡ false → (lines ≡ []) × (ear ≡ []) × (welcome ≡ [])

All-mid : (P : Bytes → Type 0) (xs ys : List Bytes) (x : Bytes) → All P (xs ++ x ∷ ys) → P x
All-mid P [] ys x h = h.0
All-mid P (z ∷ xs) ys x h = All-mid P xs ys x h.1

module _ {greeted : Bool} {sent : List Bytes} {m : Chat} where
  -- More is sent.
  pub sent-Reads : (more : List Bytes) → Reads greeted sent m → Reads greeted (sent ++ more) m
  sent-Reads more h = record {
    lines = h.lines;
    ear = h.ear;
    rest = h.rest ++ more;
    welcome = h.welcome;
    once = h.once;
    before = h.before;
    prints = h.prints;
    unprinted = h.unprinted;
    took = h.took;
    begins = ap (λ x. x ++ more) h.begins ∙ append_assoc (backwards m.received) h.rest more;
  }

  pub Reads-Unprinted :
      (pc : HearPc) (h : Reads greeted sent m)
      → m.hear_pc ≡ pc
      → Unprinted greeted h.welcome h.lines pc m.hear_buffer h.ear
  Reads-Unprinted pc h e =
      subst (λ x. Unprinted greeted h.welcome h.lines x m.hear_buffer h.ear) e h.unprinted

  -- The receiver goes on with the same line.
  pub passed-Reads :
      {t : Chat} (h : Reads greeted sent m)
      → Unprinted greeted h.welcome h.lines t.hear_pc t.hear_buffer h.ear
      → t.printed ≡ m.printed
      → t.received ≡ m.received
      → Reads greeted sent t
  passed-Reads h unprinted same_prints same_received = record {
    lines = h.lines;
    ear = h.ear;
    rest = h.rest;
    welcome = h.welcome;
    once = h.once;
    before = h.before;
    prints = same_prints ∙ h.prints;
    unprinted = unprinted;
    took = same_received ∙ h.took;
    begins = h.begins ∙ ap (λ l. backwards l ++ h.rest) (sym same_received);
  }

  take_frame-Reads :
      (frame : Bytes) (rest : List Bytes) (h : Reads greeted sent m)
      → IsFrame frame
      → sent ≡ backwards m.received ++ frame ∷ rest
      → greeted ≡ true
      → m.hear_pc ≡ HearPc.receiving
      → Reads greeted sent (take_frame m frame)
  take_frame-Reads frame rest h (line, text, e) next g at = record {
    lines = h.lines;
    ear = line ∷ [];
    rest = rest;
    welcome = h.welcome;
    once = h.once;
    before = λ no. cc;
    prints = h.prints;
    unprinted = inl (
      line,
      refl,
      recv_into-Holds m.hear_buffer frame line (record { text = text; tail = []; begins = e }),
    );
    took =
        ap (λ f. f ∷ m.received) e
        ∙ ap (◌∷◌ (terminated line)) (
            h.took
            ∙ ap (λ l. map terminated (l ++ h.lines)) (Reads-Unprinted HearPc.receiving h at));
    begins = next ∙ sym (append_assoc (backwards m.received) (frame ∷ []) rest);
  }

  -- A read of the next frame.
  pub next-Reads :
      (frame : Bytes) (rest : List Bytes)
      → Reads greeted sent m
      → All IsFrame sent
      → sent ≡ backwards m.received ++ frame ∷ rest
      → greeted ≡ true
      → m.hear_pc ≡ HearPc.receiving
      → Reads greeted sent (take_frame m frame)
  next-Reads frame rest h frames next g at =
      take_frame-Reads frame rest h
        (All-mid IsFrame (backwards m.received) rest frame (subst (All IsFrame) next frames)) next g
        at

-- A read of the greeting.
pub take_greeting-Reads :
    {sent : List Bytes} {m : Chat} (bytes : Bytes)
    → Reads false sent m
    → m.hear_pc ≡ HearPc.receiving
    → Reads true sent (take_greeting m bytes)
take_greeting-Reads bytes h at =
    let (first, quiet, none_yet) = h.before refl in
    record {
      lines = h.lines;
      ear = [];
      rest = h.rest;
      welcome = h.welcome;
      once = h.once;
      before = λ no. cc;
      prints = h.prints;
      unprinted = inr (refl, refl, first, none_yet);
      took = h.took ∙ ap (λ l. map terminated (l ++ h.lines)) quiet;
      begins = h.begins;
    }
