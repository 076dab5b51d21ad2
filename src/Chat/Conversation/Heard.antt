-- ===== src/Chat/Conversation/Heard.antt =====
-- What each side of a conversation hears of the other.
use computer_networks_lab.Prelude.{
  ◌≡◌, refl, subst, ◌∙◌, ap, Option, List, [], ◌++◌, length, ◌<◌, map,
}
use computer_networks_lab.Libc.Text.{Bytes, IsText}
use computer_networks_lab.Chat.Threads.{buffer_len, HearPc, TalkPc, Chat, open_chat}
use computer_networks_lab.Chat.Programs.{show_named}
use computer_networks_lab.Chat.Conversation.{
  Conversation, flip, HalfMove, works, sends, hears, mine, yours, Talks, greeted, then_moves,
  both_open,
}
use computer_networks_lab.Chat.Conversation.Flow.{
  said, joined, headed, pipe, Flow, Carry, Carry-none,
}
use computer_networks_lab.Chat.Conversation.Speaking.{Flow-Mouth, sent-Flow, talks-Flow}
use computer_networks_lab.Chat.Conversation.Passing.{Flow-Ear, heard-Flow, hears-Flow}

-- The flows in both directions.
record Both (my_name your_name mine_typed yours_typed : Bytes) (s : Conversation) : Type 0 where
  to_there : Flow my_name mine_typed (pipe s.here s.outgoing s.there)
  to_here : Flow your_name yours_typed (pipe s.there s.incoming s.here)

-- The text of a name that printf reads whole.
pub record IsName (name : Bytes) : Type 0 where
  pub text : IsText name
  pub fits : length name < buffer_len

HalfMove-Both :
    {x y t u : Bytes} {s s' : Conversation}
    → IsName y
    → HalfMove (show_named y) s s'
    → Both x y t u s
    → Both x y t u s'
HalfMove-Both {s = s} n (works st l) b = record {
  to_there = talks-Flow s.there s.outgoing st l b.to_there;
  to_here = hears-Flow n.text n.fits s.there s.incoming st l b.to_here;
}
HalfMove-Both n (sends at) b = record { to_there = sent-Flow b.to_there at; to_here = b.to_here }
HalfMove-Both n (hears frame rest e fits at) b = record {
  to_there = b.to_there;
  to_here = heard-Flow frame rest b.to_here e at;
}

flip-Both : {x y t u : Bytes} {s : Conversation} → Both x y t u s → Both y x u t (flip s)
flip-Both b = record { to_there = b.to_here; to_here = b.to_there }

module _ {x y : Bytes} (my : IsName x) (your : IsName y) where
  Talks-Both :
      {t u : Bytes} {s s' : Conversation}
      → Talks (show_named y) (show_named x) s s'
      → Both x y t u s
      → Both x y t u s'
  Talks-Both greeted b = b
  Talks-Both (then_moves r (mine m)) b = HalfMove-Both your m (Talks-Both r b)
  Talks-Both (then_moves r (yours m)) b =
      flip-Both (HalfMove-Both my m (flip-Both (Talks-Both r b)))

open_chat-Flow :
    (name hear_buffer talk_buffer input other_hear other_talk other_input : Bytes)
    → IsText input
    → Flow name input (
        pipe
          (open_chat hear_buffer talk_buffer input)
          []
          (open_chat other_hear other_talk other_input))
unfolding open_chat
open_chat-Flow name hear_buffer talk_buffer input other_hear other_talk other_input text = record {
  shown = [];
  at_ear = [];
  way = [];
  at_mouth = [];
  prints = refl;
  ear = refl;
  carries = tt;
  mouth = refl;
  unread = text;
  whole = refl;
}

-- What has been printed are lines, each behind the name, which together are the beginning of what has
-- been typed. `lines` has the newest first.
pub record Hears (name typed : Bytes) (printed : List (Option Bytes)) : Type 0 where
  pub lines : List Bytes
  pub rest : Bytes
  pub prints : printed ≡ map (headed name) lines
  pub begins : typed ≡ said lines ++ rest

Flow-Hears :
    {name typed : Bytes} (a b : Chat) (frames : List Bytes)
    → Flow name typed (pipe a frames b)
    → Hears name typed b.printed
Flow-Hears a b frames f = record {
  lines = f.shown;
  rest = f.at_ear ++ (joined f.way ++ (f.at_mouth ++ a.input));
  prints = f.prints;
  begins = f.whole;
}

module _ {x y : Bytes} (my : IsName x) (your : IsName y)
    (mine_typed yours_typed hear_buffer talk_buffer other_hear other_talk : Bytes) where
  -- The two chats when both have just begun, whatever their buffers hold.
  abbrev pub beginning : Conversation
  beginning =
      both_open (open_chat hear_buffer talk_buffer mine_typed)
        (open_chat other_hear other_talk yours_typed)

  Talks-flows :
      {s : Conversation}
      → IsText mine_typed
      → IsText yours_typed
      → Talks (show_named y) (show_named x) beginning s
      → Both x y mine_typed yours_typed s
  Talks-flows text text' r = Talks-Both my your r (record {
    to_there =
        open_chat-Flow x hear_buffer talk_buffer mine_typed other_hear other_talk yours_typed text;
    to_here =
        open_chat-Flow y other_hear other_talk yours_typed hear_buffer talk_buffer mine_typed text';
  })

  -- In every state that two connected chats can come to, each side has printed lines, behind the name of
  -- the other side, that together are the beginning of what has been typed on the other side: nothing
  -- is lost, changed, repeated or out of order. No call fails, the inputs do not end and hold no NUL,
  -- each frame arrives whole in one read, and the names are shorter than the buffer.
  pub Talks-Hears :
      {s : Conversation}
      → IsText mine_typed
      → IsText yours_typed
      → Talks (show_named y) (show_named x) beginning s
      → Hears x mine_typed s.there.printed × Hears y yours_typed s.here.printed
  Talks-Hears {s} text text' r =
      let b = Talks-flows text text' r in
      (
        Flow-Hears s.here s.there s.outgoing b.to_there,
        Flow-Hears s.there s.here s.incoming b.to_here,
      )

  -- When no frame is under way, this talker waits for a line and the other receiver for a frame, then
  -- all that has been read from standard input here has been printed there.
  pub Talks-said :
      {s : Conversation}
      → IsText mine_typed
      → IsText yours_typed
      → Talks (show_named y) (show_named x) beginning s
      → s.outgoing ≡ []
      → s.here.talk_pc ≡ TalkPc.reading
      → s.there.hear_pc ≡ HearPc.receiving
      → (lines : List Bytes) × (s.there.printed ≡ map (headed x) lines)
        × (mine_typed ≡ said lines ++ s.here.input)
  Talks-said {s} text text' r empty reads waits =
      let f = (Talks-flows text text' r).to_there in
      (
        f.shown,
        f.prints,
        f.whole
            ∙ ap (◌++◌ (said f.shown)) (
                ap (λ l. l ++ (joined f.way ++ (f.at_mouth ++ s.here.input)))
                  (Flow-Ear HearPc.receiving f waits)
                ∙ (ap (λ l. joined l ++ (f.at_mouth ++ s.here.input))
                      (Carry-none f.way (subst (λ fs. Carry fs f.way) empty f.carries))
                    ∙ ap (λ l. l ++ s.here.input) (Flow-Mouth TalkPc.reading f reads))),
      )
