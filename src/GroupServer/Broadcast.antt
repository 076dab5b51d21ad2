-- ===== src/GroupServer/Broadcast.antt =====
-- `shout` against its specification: the message goes once to each client but the sender.
use native.Mathlib.Numerals.{add-one}
use computer_networks_lab.Prelude.{
  ℕ, zero, suc, ◌+◌, ◌-◌, ◌≤◌, ◌<◌, ◌≡◌, refl, ap, ◌∙◌, some, List, [], ◌∷◌, ◌++◌, arith, length,
  get_elem?, take, map, replicate, length-append, ◌==◌, if◌then◌else◌, Bool-cases, inl, inr,
  take_of_le, drop_of_le, append-nil, length-replicate, min,
}
use computer_networks_lab.Libc.Text.{Bytes, c_string, store, memset, snprintf, length-store}
use computer_networks_lab.Libc.Decimal.{decimal_one_digit}
use computer_networks_lab.GroupServer.Table.{
  Client, Server, Send, message, add_send, shout_from, shout,
}
use computer_networks_lab.GroupServer.Registry.{Numbered, Inv}

-- The specification: the clients with another number.
unfoldable pub others : ℕ → List Client → List Client
others id [] = []
others id (c ∷ cs) = let rest = others id cs in if c.id == id then rest else c ∷ rest

-- A whole message with its terminating NUL.
abbrev pub frame : ℕ → Bytes → Bytes
frame id text = message id text ++ 0 ∷ []

abbrev pub deliver : Bytes → Client → Send
deliver bytes c = record { to = c.sockfd; bytes = bytes }

pub length-message : (id : ℕ) (text : Bytes) → id < 10 → length (message id text) ≡ length text + 9
length-message id text h = rw (decimal_one_digit id h) (omega arith)

-- With one digit in the number, the message and its NUL fill the message buffer exactly.
pub frame-fills :
    (id : ℕ) (text msg : Bytes)
    → id < 10
    → length msg ≡ length text + 10
    → snprintf msg (length text + 10) (message id text) ≡ frame id text
unfolding snprintf store
frame-fills id text msg h size =
    ap (λ t. store (t ++ 0 ∷ []) msg)
      (take_of_le (length text + 10 - 1) (message id text)
        (omega (arith, length-message id text h)))
    ∙ (ap (λ t. frame id text ++ t)
          (drop_of_le (length (frame id text)) msg
            (omega (arith, length-message id text h, length-append (message id text) (0 ∷ []))))
        ∙ append-nil (frame id text))

pub length-memset : (b : Bytes) (v n : ℕ) → length (memset b v n) ≡ length b
unfolding memset
length-memset b v n =
    length-store (replicate (min n (length b)) v) b
      (omega (arith, length-replicate (min n (length b)) v))

module _ (clients : List Client) (id : ℕ) (text : Bytes) (small : id < 10) where
  abbrev Sent : ℕ → ℕ → List Client → Type 0
  Sent n i cs =
      (msg : Bytes)
      → length msg ≡ length text + 10
      → shout_from clients id (length text + 10) text n i msg
        ≡ some (map (deliver (frame id text)) (others id cs))

  -- One round, from what the later rounds send.
  shout_round :
      (c : Client) (cs : List Client) (n i : ℕ)
      → get_elem? clients i ≡ some c
      → c.id ≡ i
      → Sent n (i + 1) cs
      → Sent (suc n) i (c ∷ cs)
  unfolding shout_from others
  shout_round c cs n i entry number rest msg size = elim (Bool-cases (i == id)) [
    | inl own ↦ rw (own, number) (rw own (rest msg size))
    | inr other ↦
        rw (other, number)
          (rw (other, entry, frame-fills id text msg small size)
            (ap (add_send (deliver (frame id text) c))
              (rest cleared (length-memset _ _ _ ∙ filled))))
  ]
    where
      cleared : Bytes
      cleared = memset (frame id text) 0 (length text + 10)

      filled : length (frame id text) ≡ length text + 10
      filled = omega (arith, length-message id text small, length-append (message id text) (0 ∷ []))

  -- The loop from index `i`, where `cs` is the rest of the table.
  shout_from-others :
      (cs : List Client) (n i : ℕ)
      → n ≤ length cs
      → ((j : ℕ) → get_elem? clients (i + j) ≡ get_elem? cs j)
      → Numbered i n cs
      → Sent n i (take n cs)
  unfolding shout_from others
  shout_from-others cs zero i fits tail k = λ msg size. refl
  shout_from-others [] (suc n) i fits tail k = absurd (omega arith)
  shout_from-others (c ∷ cs) (suc n) i fits tail k =
      shout_round c (take n cs) n i (ap (get_elem? clients) (omega arith) ∙ tail 0) k.0 (
        shout_from-others cs n (i + 1) (omega arith)
          (λ j. ap (get_elem? clients) (omega arith) ∙ tail (suc j)) (rw add-one k.1))

-- A message of client `cli_id` is sent once to every other connected client and to nobody else, in
-- the order of the table, as "CLIENT<cli_id>: <text>" with its NUL, whatever malloc's memory held.
pub shout_lem :
    (s : Server) (cli_id : ℕ) (buffer text msg : Bytes)
    → Inv s
    → cli_id < s.client_id
    → c_string buffer ≡ some text
    → length msg ≡ length text + 10
    → shout s cli_id buffer msg
      ≡ some (map (deliver (frame cli_id text)) (others cli_id (take s.client_id s.clients)))
unfolding shout
shout_lem s cli_id buffer text msg inv known read size = rw read (
    shout_from-others s.clients cli_id text (omega (arith, inv.room)) s.clients s.client_id 0
      (omega (arith, inv.size, inv.room)) (λ j. ap (get_elem? s.clients) (omega arith)) inv.numbered
      (memset msg 0 (length text + 10)) (length-memset _ _ _ ∙ size))
