-- ===== src/Chat/Display.antt =====
-- What a line that one side types looks like on the other side.
use computer_networks_lab.Prelude.{
  ℕ, ◌-◌, ◌<◌, ◌≡◌, ap, ◌∙◌, none, some, [], ◌∷◌, ◌++◌, append_assoc, length, drop, arith,
  drop_of_le, append-nil,
}
use computer_networks_lab.Libc.Text.{
  Bytes, codes, IsText, c_string, store, c_string-store, c_string-cleared_text, c_string-text,
}
use computer_networks_lab.Libc.Input.{take_line, fgets, take_line-IsText}
use computer_networks_lab.Chat.Threads.{buffer_len, recv_into}
use computer_networks_lab.Chat.Programs.{recv_name, show_named, show_plain}

-- A name that leaves room for its NUL is printed as it was given.
pub c_string-recv_name :
    (name : Bytes) → IsText name → length name < buffer_len → c_string (recv_name name) ≡ some name
unfolding recv_name
c_string-recv_name name h fits = c_string-cleared_text name buffer_len h fits

-- A frame that fgets filled, received whole.
pub c_string-frame :
    (b c : Bytes) (x : ℕ) (input : Bytes)
    → IsText (x ∷ input)
    → c_string (recv_into b (some (fgets c buffer_len (x ∷ input)).0))
      ≡ some (take_line (buffer_len - 1) (x ∷ input)).0
unfolding fgets store
c_string-frame b c x input h =
    let line = (take_line (buffer_len - 1) (x ∷ input)).0 in
    let tail = drop (length (line ++ 0 ∷ [])) c in
    ap (λ t. c_string (store t b)) (append_assoc line (0 ∷ []) tail)
    ∙ c_string-store line tail b (take_line-IsText (buffer_len - 1) (x ∷ input) h)

-- A line typed on one side is printed on the other behind the name of the sender, unchanged up to
-- 255 bytes, whatever the buffers held before, if its frame is received whole. The typed text holds
-- no NUL, and the name is shorter than the buffer.
show_named-talk :
    (name b c : Bytes) (x : ℕ) (input : Bytes)
    → IsText name
    → length name < buffer_len
    → IsText (x ∷ input)
    → show_named name (recv_into b (some (fgets c buffer_len (x ∷ input)).0))
      ≡ some (name ++ codes ": " ++ (take_line (buffer_len - 1) (x ∷ input)).0)
unfolding show_named
show_named-talk name b c x input hn fits h =
    rw (c_string-recv_name name hn fits) (rw (c_string-frame b c x input h))

-- A frame that fills the buffer and holds no NUL makes the printf of the group chat read past the
-- end of the buffer.
pub show_plain_over_read :
    (b frame : Bytes)
    → IsText frame
    → length frame ≡ buffer_len
    → length b ≡ buffer_len
    → show_plain (recv_into b (some frame)) ≡ none
unfolding show_plain store
show_plain_over_read b frame h full size =
    ap (λ t. c_string (frame ++ t)) (drop_of_le (length frame) b (omega arith))
    ∙ (ap c_string (append-nil frame) ∙ c_string-text frame h)
