-- ===== src/Lab/Pair.antt =====
-- week0/q3/tcp: two processes on each side after a fork, one that reads and one that writes. Both
-- work on their own copy of the buffer, so a side is two loops that share nothing but the socket.
use computer_networks_lab.Prelude.{
  min, take-append_of_ge, drop, length-append, append_assoc, ℕ, zero, suc, List, [], ◌∷◌, ◌++◌, ◌≡◌,
  refl, ap, ◌∙◌, length, take, false, some, none, Option, if◌then◌else◌, arith, replicate,
}
use computer_networks_lab.Libc.Text.{
  Bytes, codes, store, c_string, strncmp_eq, memset, IsText, c_string-store,
}
use computer_networks_lab.Libc.Input.{fgets, take_line, take_line-IsText, length-take_line}
use computer_networks_lab.Libc.Decimal.{decimal}
use computer_networks_lab.Os.{
  Call, Answer, failed, result, Kernel, Program, return, exit, tell, ask, need, ◌>>=◌, ◌>>◌,
}
use computer_networks_lab.Lab.Opening.{empty_buffer, error, checked, accept_one, connect_one}
use computer_networks_lab.Lab.Greeting.{typed}
pub mod Loops

-- One round of the writing process: the end at a line that begins with END, or the bytes written, the
-- buffer and the rest of the input.
pub data Talk : Type 0 where
  ended : Talk
  sent : (frame buffer input : Bytes) → Talk

-- memset (buffer, BUFFER_SIZE, 0) has its last arguments exchanged: it sets zero bytes to 256.
unfoldable pub talk_line : Bytes → Bytes → Talk
unfolding fgets strncmp_eq memset store
talk_line buffer input =
    let (buffer', input') = fgets buffer 255 input in
    if strncmp_eq 3 buffer' (codes "END" ++ 0 ∷ [])
    then ended
    else sent (take 255 buffer') (memset buffer' 256 0) input'

-- One round of the reading process, for the bytes of its read: the text that it prints, `none` if
-- there is no NUL, and the buffer.
unfoldable pub hear_frame : Bytes → Bytes → Option Bytes × Bytes
unfolding c_string store memset
hear_frame buffer bytes = (c_string (store bytes buffer), memset (store bytes buffer) 256 0)

-- What differs in server.c and client.c: the status of an error, the name of the other side, and two
-- texts.
pub record Side : Type 0 where
  pub status : ℕ
  pub other : Bytes
  pub pid_text : Bytes
  pub fork_error : Bytes

abbrev pub server_side : Side
server_side = record {
  status = 1;
  other = codes "CLIENT: ";
  pid_text = codes "PID of child: ";
  fork_error = codes "ERROR in creating a child";
}

abbrev pub client_side : Side
client_side = record {
  status = 0;
  other = codes "SERVER: ";
  pid_text = codes "PID of child ";
  fork_error = codes "ERROR creating a child";
}

abbrev pub bye : Side → ℕ → Call
bye side pid = Call.printf (side.pid_text ++ (decimal pid ++ codes "\n"))

module _ (kernel : Kernel) (side : Side) (fd : ℕ) where
  abbrev pub arrived : Answer → Program Bytes
  arrived failed = error side.status (codes "ERROR reading from socket")
  arrived (result n bytes) = return bytes

  -- The rest of a round of the child; `rounds` is what comes after it.
  abbrev pub heard : (Bytes → Program Bytes) → Option Bytes × Bytes → Program Bytes
  heard rounds (text, buffer) = do
    line ← need text
    tell (Call.printf (side.other ++ line))
    rounds buffer

  -- The loop of the child, in rounds, from its buffer.
  unfoldable pub hear_rounds : ℕ → Bytes → Program Bytes
  unfolding hear_frame
  hear_rounds zero buffer = return buffer
  hear_rounds (suc n) buffer = do
    bytes ← ask kernel (Call.read fd 255) >>= arrived
    heard (hear_rounds n) (hear_frame buffer bytes)

  -- The rest of a round of the parent; `rounds` is what comes after it.
  abbrev pub talked : ℕ → (Bytes → Program Bytes) → Talk → Program Bytes
  talked pid rounds ended = tell (bye side pid) >> exit 0
  talked pid rounds (sent frame buffer input) = do
    _ ← checked kernel side.status (codes "ERROR writing to socket") (Call.write fd frame)
    rounds buffer

  -- The loop of the parent, whose child is `pid`.
  unfoldable pub talk_frames : ℕ → ℕ → Bytes → Program Bytes
  unfolding talk_line decimal
  talk_frames zero pid buffer = return buffer
  talk_frames (suc n) pid buffer = do
    input ← ask kernel (Call.stdin 255)
    talked pid (talk_frames n pid) (talk_line buffer (typed input))

  -- The loop of main in the process that fork makes it. The buffer is cleared at the start of main.
  abbrev pub pair_loop : ℕ → Answer → Program Bytes
  pair_loop n failed = error side.status side.fork_error
  pair_loop n (result zero bytes) = hear_rounds n empty_buffer
  pair_loop n (result (suc pid) bytes) = talk_frames n (suc pid) empty_buffer

-- main of server.c, for `n` rounds of its loop.
unfoldable pub pair_server : Kernel → ℕ → List Bytes → Program Bytes
unfolding accept_one hear_rounds talk_frames
pair_server kernel n argv = do
  fd ← accept_one kernel argv
  tell (Call.printf (codes "Connection establised!\n"))
  ask kernel Call.fork >>= pair_loop kernel server_side fd n

-- main of client.c, for `n` rounds of its loop.
unfoldable pub pair_client : Kernel → ℕ → List Bytes → Program Bytes
unfolding connect_one hear_rounds talk_frames
pair_client kernel n argv = do
  fd ← connect_one kernel argv
  ask kernel Call.fork >>= pair_loop kernel client_side fd n

min_zero : (n : ℕ) → min 0 n ≡ 0
min_zero n = omega arith

pub memset_none : (b : Bytes) → memset b 256 0 ≡ b
unfolding memset store
memset_none b = ap (λ n. store (replicate n 256) b) (min_zero (length b))

-- What the other side prints after a round, from its buffer; `none` also if nothing was written.
abbrev pub printed : Bytes → Talk → Option Bytes
printed other ended = none
printed other (sent frame buffer input) = (hear_frame other frame).0

-- The next line of the input, or its first 254 bytes if it is longer, is sent in one round and printed
-- unchanged on the other side, if it does not begin with END, the input is not empty and holds no NUL,
-- and the frame arrives in one read: what the buffers held before does not matter.
pub pair-talk :
    (buffer other input : Bytes) (c : ℕ)
    → IsText (c ∷ input)
    → strncmp_eq 3 (fgets buffer 255 (c ∷ input)).0 (codes "END" ++ 0 ∷ []) ≡ false
    → printed other (talk_line buffer (c ∷ input)) ≡ some (take_line 254 (c ∷ input)).0
unfolding talk_line hear_frame fgets store
pair-talk buffer other input c text goes_on =
    let line = (take_line 254 (c ∷ input)).0 in
    let (m, e) =
      take-append_of_ge (line ++ 0 ∷ []) (drop (length (line ++ 0 ∷ [])) buffer) 255
        (omega (arith, length-append line (0 ∷ []), length-take_line 254 (c ∷ input))) in
    let rest = take m (drop (length (line ++ 0 ∷ [])) buffer) in
    rw goes_on (
      ap (λ x. c_string (store x other)) (e ∙ append_assoc line (0 ∷ []) rest)
      ∙ c_string-store line rest other (take_line-IsText 254 (c ∷ input) text))

-- The rounds of the writing process.
unfoldable pub talk_rounds : ℕ → Bytes → Bytes → List Bytes
unfolding talk_line
talk_rounds zero buffer input = []
talk_rounds (suc n) buffer input = elim (talk_line buffer input) [
  | ended ↦ []
  | sent frame buffer' input' ↦ frame ∷ talk_rounds n buffer' input'
]

-- At the end of its input the writing process does not stop: in every round it writes the bytes of its
-- buffer again, unless they begin with END.
talk_rounds-end :
    (n : ℕ) (buffer : Bytes)
    → strncmp_eq 3 buffer (codes "END" ++ 0 ∷ []) ≡ false
    → talk_rounds n buffer [] ≡ replicate n (take 255 buffer)
unfolding talk_rounds talk_line fgets
talk_rounds-end zero buffer h = refl
talk_rounds-end (suc n) buffer h =
    rw (h, memset_none buffer) (ap (◌∷◌ (take 255 buffer)) (talk_rounds-end n buffer h))
