-- ===== src/Chat/Threads.antt =====
-- The threads of week0/beej/chat/chat.c: `hear`, `talk` and the loop of `chat`. Each access to the
-- shared END_COM, HEAR and TALK is one step, and the threads are interleaved in any order.
--
-- What a thread reads from its socket or from standard input is chosen by the environment. A read
-- of the socket that fails, and one at the end of the stream, leave the buffer as it was; so does
-- fgets at the end of the input. pthread_kill is where the model of the main thread ends its loop;
-- what the signal does to the process is the kernel's.
use computer_networks_lab.Prelude.{
  ℕ, ◌≤◌, ◌≡◌, Bool, true, false, Option, none, some, List, [], ◌∷◌, ◌||◌, if◌then◌else◌, length,
}
use computer_networks_lab.Libc.Text.{Bytes, codes, strncmp_eq, store}
use computer_networks_lab.Libc.Input.{fgets}

abbrev pub buffer_len : ℕ
buffer_len = 256

-- strncmp (buffer, "#END", 4) == 0
unfoldable pub is_end : Bytes → Bool
unfolding strncmp_eq
is_end buffer = strncmp_eq 4 buffer (codes "#END")

pub data HearPc : Type 0 where
  testing receiving checking printing leaving finished : HearPc

pub data TalkPc : Type 0 where
  testing reading sending checking leaving finished : TalkPc

-- `first_hear` reads HEAR and `first_talk` TALK in `!HEAR && TALK`; the other two stand for
-- `!TALK && HEAR`.
pub data MainPc : Type 0 where
  first_hear first_talk second_talk second_hear sleeping kill_talk kill_hear : MainPc

pub record Chat : Type 0 where
  pub end_com : Bool
  pub talk : Bool
  pub hear : Bool
  pub hear_pc : HearPc
  pub hear_buffer : Bytes
  pub talk_pc : TalkPc
  pub talk_buffer : Bytes
  pub input : Bytes
  pub main_pc : MainPc
  -- Newest first: what was received, sent and printed. A print is `none` where `%s` reads past the
  -- end of the buffer.
  pub received : List Bytes
  pub sent : List Bytes
  pub printed : List (Option Bytes)

-- What recv leaves in the buffer: `none` is the result -1, and n bytes overwrite the first n.
abbrev pub recv_into : Bytes → Option Bytes → Bytes
recv_into buffer none = buffer
recv_into buffer (some bytes) = store bytes buffer

abbrev pub arrived : Option Bytes → List Bytes → List Bytes
arrived none log = log
arrived (some bytes) log = bytes ∷ log

abbrev pub Fits : Option Bytes → Type 0
Fits none = Unit
Fits (some bytes) = length bytes ≤ buffer_len

-- One step of the loop of `chat`, from the values of HEAR and TALK.
unfoldable pub main_next : Bool → Bool → MainPc → MainPc
main_next hear talk first_hear = if hear then second_talk else first_talk
main_next hear talk first_talk = if talk then kill_talk else second_talk
main_next hear talk second_talk = if talk then sleeping else second_hear
main_next hear talk second_hear = if hear then kill_hear else sleeping
main_next hear talk sleeping = first_hear
main_next hear talk kill_talk = kill_talk
main_next hear talk kill_hear = kill_hear

-- The receiver at its printf; `show` is the text that the format prints for a buffer.
module _ (show : Bytes → Option Bytes) where
  pub data Step (s : Chat) : Chat → Type 0 where
    hear_test :
        s.hear_pc ≡ HearPc.testing
        → Step s (record s { hear_pc = if s.end_com then HearPc.leaving else HearPc.receiving })
    hear_recv :
        (result : Option Bytes)
        → Fits result
        → s.hear_pc ≡ HearPc.receiving
        → Step s (record s {
          hear_pc = HearPc.checking;
          hear_buffer = recv_into s.hear_buffer result;
          received = arrived result s.received;
        })
    hear_check :
        s.hear_pc ≡ HearPc.checking
        → Step s
            (record s { hear_pc = HearPc.printing; end_com = is_end s.hear_buffer || s.end_com })
    hear_print :
        s.hear_pc ≡ HearPc.printing
        → Step s (record s { hear_pc = HearPc.testing; printed = show s.hear_buffer ∷ s.printed })
    hear_leave :
        s.hear_pc ≡ HearPc.leaving → Step s (record s { hear_pc = HearPc.finished; hear = false })
    talk_test :
        s.talk_pc ≡ TalkPc.testing
        → Step s (record s { talk_pc = if s.end_com then TalkPc.leaving else TalkPc.reading })
    talk_read :
        s.talk_pc ≡ TalkPc.reading
        → Step s (record s {
          talk_pc = TalkPc.sending;
          talk_buffer = (fgets s.talk_buffer buffer_len s.input).0;
          input = (fgets s.talk_buffer buffer_len s.input).1;
        })
    -- A send that fails is reported and changes nothing else.
    talk_send :
        s.talk_pc ≡ TalkPc.sending
        → Step s (record s { talk_pc = TalkPc.checking; sent = s.talk_buffer ∷ s.sent })
    talk_send_fails : s.talk_pc ≡ TalkPc.sending → Step s (record s { talk_pc = TalkPc.checking })
    talk_check :
        s.talk_pc ≡ TalkPc.checking
        → Step s
            (record s { talk_pc = TalkPc.testing; end_com = is_end s.talk_buffer || s.end_com })
    talk_leave :
        s.talk_pc ≡ TalkPc.leaving → Step s (record s { talk_pc = TalkPc.finished; talk = false })
    main_step : Step s (record s { main_pc = main_next s.hear s.talk s.main_pc })

  pub data Reach (init : Chat) : Chat → Type 0 where
    here : Reach init init
    next : {s t : Chat} → Reach init s → Step s t → Reach init t

-- `chat` after its two calls of pthread_create. The buffers of the threads are not initialised.
unfoldable pub open_chat : Bytes → Bytes → Bytes → Chat
open_chat hear_buffer talk_buffer input = record {
  end_com = false;
  talk = true;
  hear = true;
  hear_pc = HearPc.testing;
  hear_buffer = hear_buffer;
  talk_pc = TalkPc.testing;
  talk_buffer = talk_buffer;
  input = input;
  main_pc = first_hear;
  received = [];
  sent = [];
  printed = [];
}
