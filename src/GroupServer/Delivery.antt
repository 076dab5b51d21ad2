-- ===== src/GroupServer/Delivery.antt =====
-- A message on its way from one client of the group chat through the server to another.
use computer_networks_lab.Prelude.{
  ℕ, ◌+◌, ◌-◌, ◌≤◌, ◌<◌, ◌≡◌, ◌≢◌, ap, ◌∙◌, none, some, List, [], ◌∷◌, arith, length, take, map,
  All-append, length-append, take_of_le, length-take, take-append_of_le, All-take,
}
use computer_networks_lab.Libc.Text.{Bytes, codes, IsText, c_string, store, c_string-store}
use computer_networks_lab.Libc.Input.{take_line, fgets}
use computer_networks_lab.Libc.Decimal.{decimal-IsText}
use computer_networks_lab.Chat.Threads.{recv_into}
use computer_networks_lab.Chat.Programs.{show_plain}
use computer_networks_lab.Chat.Display.{c_string-frame, show_plain_over_read}
use computer_networks_lab.GroupServer.Table.{
  buffer_len, Server, Send, message, heard, hear_round, shout,
}
use computer_networks_lab.GroupServer.Registry.{Inv}
use computer_networks_lab.GroupServer.Broadcast.{others, frame, deliver, shout_lem, length-message}

-- A line that a client types, of at most 255 bytes, is sent on to every other client with the
-- sender's number, when its frame reaches the server whole.
hear_round-talk :
    (s : Server) (id x : ℕ) (buffer c input msg : Bytes)
    → Inv s
    → id < s.client_id
    → IsText (x ∷ input)
    → let line = (take_line (buffer_len - 1) (x ∷ input)).0 in
      let bytes = (fgets c buffer_len (x ∷ input)).0 in
      length msg ≡ length line + 10
      → hear_round s id buffer (some bytes) msg
        ≡ heard
            (store bytes buffer)
            (map (deliver (frame id line)) (others id (take s.client_id s.clients)))
unfolding hear_round
hear_round-talk s id x buffer c input msg inv known text size =
    rw (shout_lem s id _ _ msg inv known (c_string-frame buffer c x input text) size)

pub message-IsText : (id : ℕ) (text : Bytes) → IsText text → IsText (message id text)
message-IsText id text h =
    All-append _ (codes "CLIENT") _ (omega arith)
      (All-append _ _ _ (decimal-IsText id) (All-append _ (codes ": ") text (omega arith) h))

-- A text of at most 246 bytes is printed by every receiver whose recv takes the whole frame, behind
-- the sender's number and unchanged.
pub short_message_shows :
    (b : Bytes) (id : ℕ) (text : Bytes)
    → IsText text
    → id < 10
    → length text ≤ 246
    → show_plain (recv_into b (some (take buffer_len (frame id text)))) ≡ some (message id text)
unfolding show_plain
short_message_shows b id text h small short =
    ap (λ t. c_string (store t b))
      (take_of_le buffer_len (frame id text)
        (omega (arith, length-append (message id text) (0 ∷ []), length-message id text small)))
    ∙ c_string-store (message id text) [] b (message-IsText id text h)

-- A text of 247 bytes or more makes every receiver's printf read past the end of its buffer: recv
-- takes the first 256 bytes of the frame, and none of them is NUL.
pub long_message_over_reads :
    (b : Bytes) (id : ℕ) (text : Bytes)
    → IsText text
    → id < 10
    → 247 ≤ length text
    → length b ≡ buffer_len
    → show_plain (recv_into b (some (take buffer_len (frame id text)))) ≡ none
long_message_over_reads b id text h small long size =
    ap (λ t. show_plain (recv_into b (some t)))
      (take-append_of_le (message id text) (0 ∷ []) buffer_len
        (omega (arith, length-message id text small)))
    ∙ show_plain_over_read b (take buffer_len (message id text))
        (All-take (λ c. c ≢ 0) buffer_len (message id text) (message-IsText id text h))
        (omega (arith, length-take buffer_len (message id text), length-message id text small)) size

-- A connection that the peer has closed (recv returns 0) repeats: the server sends the last message
-- of that client once more, in every round.
closed_repeats :
    (s : Server) (id : ℕ) (buffer msg : Bytes) (sends : List Send)
    → shout s id buffer msg ≡ some sends
    → hear_round s id buffer (some []) msg ≡ heard buffer sends
unfolding hear_round store
closed_repeats s id buffer msg sends h = rw h
