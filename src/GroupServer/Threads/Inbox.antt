-- ===== src/GroupServer/Threads/Inbox.antt =====
-- What one member of the group chat hears.
use mathlib.Core.List.Memᴰ
use mathlib.Core.List.{Memᴰ}
use computer_networks_lab.Prelude.{
  ℕ, ◌≡◌, refl, ap, ◌∙◌, sym, none, List, [], ◌∷◌, ◌++◌, arith, take, ◌==◌, if◌then◌else◌, Bool,
  inl, inr, true, false, subst,
}
use computer_networks_lab.Libc.Text.{Bytes}
use computer_networks_lab.GroupServer.Table.{Client, Send}
use computer_networks_lab.GroupServer.Broadcast.{frame, others}
use computer_networks_lab.GroupServer.Threads.{System, start, Reach}
use computer_networks_lab.GroupServer.Threads.History.{
  Event, joins, shouts, members_of, sends_of, broadcast,
}
use computer_networks_lab.GroupServer.Threads.Atomic.{atomic_shouts}

-- What has been sent on a socket, the oldest first.
abbrev pub inbox : ℕ → List Send → List Bytes
inbox k [] = []
inbox k (x ∷ xs) = let rest = inbox k xs in if x.to == k then x.bytes ∷ rest else rest

abbrev pub is_member : ℕ → List Client → Bool
is_member k [] = false
is_member k (c ∷ cs) = let rest = is_member k cs in if c.sockfd == k then true else rest

-- What a client hears of a shout, among these members.
abbrev pub hears : Client → ℕ → Bytes → List Client → List Bytes
hears c id text members =
    if is_member c.sockfd members then (if c.id == id then [] else frame id text ∷ []) else []

-- What a client hears of a history: the shouts of others after it has joined, in their order.
unfoldable pub heard : Client → List Event → List Bytes
unfolding members_of
heard c [] = []
heard c (joins d ∷ h) = heard c h
heard c (shouts id text ∷ h) = heard c h ++ hears c id text (members_of h)

-- The sockets of the members differ.
abbrev pub Distinct : List Client → Type 0
Distinct [] = Unit
Distinct (c ∷ cs) = (is_member c.sockfd cs ≡ false) × Distinct cs

pub inbox-append : (k : ℕ) (xs ys : List Send) → inbox k (xs ++ ys) ≡ inbox k xs ++ inbox k ys
inbox-append k [] ys = refl
inbox-append k (x ∷ xs) ys = ground (arith, inbox-append k xs ys)

broadcast_stranger :
    (k id : ℕ) (text : Bytes) (ms : List Client)
    → is_member k ms ≡ false
    → inbox k (broadcast id text ms) ≡ []
unfolding others
broadcast_stranger k id text [] h = refl
broadcast_stranger k id text (m ∷ ms) h = ground (arith, broadcast_stranger k id text ms)

is_member-Memᴰ : (c : Client) (ms : List Client) → Memᴰ c ms → is_member c.sockfd ms ≡ true
is_member-Memᴰ c [] i = elim i [ ]
is_member-Memᴰ c (m ∷ ms) (Memᴰ.head e) = rw e (ground arith)
is_member-Memᴰ c (m ∷ ms) (Memᴰ.tail i) = ground (arith, is_member-Memᴰ c ms i)

is_member-append :
    (k : ℕ) (ms : List Client) (d : Client)
    → is_member k (ms ++ d ∷ []) ≡ false
    → (is_member k ms ≡ false) × ((d.sockfd == k) ≡ false)
is_member-append k [] d h = ground arith
is_member-append k (m ∷ ms) d h = ground (arith, is_member-append k ms d)

Distinct-append :
    (ms : List Client) (d : Client)
    → Distinct (ms ++ d ∷ [])
    → Distinct ms × (is_member d.sockfd ms ≡ false)
Distinct-append [] d h = (tt, refl)
Distinct-append (m ∷ ms) d h =
    let (other, apart) = is_member-append m.sockfd ms d h.0 in
    let (rest, stranger) = Distinct-append ms d h.1 in ((other, rest), ground arith)

-- A shout reaches a member once, if it is of another.
broadcast_member :
    (c : Client) (id : ℕ) (text : Bytes) (ms : List Client)
    → Distinct ms
    → Memᴰ c ms
    → inbox c.sockfd (broadcast id text ms) ≡ (if c.id == id then [] else frame id text ∷ [])
unfolding others
broadcast_member c id text [] h i = elim i [ ]
broadcast_member c id text (m ∷ ms) h (Memᴰ.head e) =
    rw e (ground (arith, broadcast_stranger m.sockfd id text ms h.0))
broadcast_member c id text (m ∷ ms) h (Memᴰ.tail i) =
    ground (arith, broadcast_member c id text ms h.1 i, is_member-Memᴰ c ms i)

-- Nothing has been sent to a client that has not joined.
stranger_hears :
    (c : Client) (h : List Event)
    → is_member c.sockfd (members_of h) ≡ false
    → (inbox c.sockfd (sends_of h) ≡ []) × (heard c h ≡ [])
unfolding members_of sends_of heard
stranger_hears c [] n = (refl, refl)
stranger_hears c (joins d ∷ h) n =
    stranger_hears c h (is_member-append c.sockfd (members_of h) d n).0
stranger_hears c (shouts id text ∷ h) n =
    let (silent, deaf) = stranger_hears c h n in
    (
      inbox-append c.sockfd (sends_of h) (broadcast id text (members_of h))
          ∙ rw (silent, broadcast_stranger c.sockfd id text (members_of h) n) refl,
      rw (deaf, n) refl,
    )

member_hears :
    (c : Client) (h : List Event)
    → Distinct (members_of h)
    → Memᴰ c (members_of h)
    → inbox c.sockfd (sends_of h) ≡ heard c h
unfolding members_of sends_of heard
member_hears c [] apart i = elim i [ ]
member_hears c (joins d ∷ h) apart i =
    let (apart', fresh) = Distinct-append (members_of h) d apart in
    elim (Memᴰ.append_cases (members_of h) i) [
      | inl j ↦ member_hears c h apart' j
      | inr (Memᴰ.head e) ↦
          let (silent, deaf) =
            stranger_hears c h (ap (λ x. is_member x.sockfd (members_of h)) e ∙ fresh) in
          silent ∙ sym deaf
      | inr (Memᴰ.tail j) ↦ elim j [ ]
    ]
member_hears c (shouts id text ∷ h) apart i =
    inbox-append c.sockfd (sends_of h) (broadcast id text (members_of h))
    ∙ rw (is_member-Memᴰ c (members_of h) i)
        (rw (member_hears c h apart i, broadcast_member c id text (members_of h) apart i) refl)

pub history_hears :
    (c : Client) (h : List Event) {ms : List Client} {sends : List Send}
    → members_of h ≡ ms
    → sends_of h ≡ sends
    → Distinct ms
    → Memᴰ c ms
    → inbox c.sockfd sends ≡ heard c h
history_hears c h joined sent apart i =
    ap (inbox c.sockfd) (sym sent)
    ∙ member_hears c h (subst Distinct (sym joined) apart) (subst (Memᴰ c) (sym joined) i)

-- In every state that the process can come to while the mutex is free, and if the sockets of its
-- clients differ, there is one history of joins and shouts such that the socket of each client has
-- been sent exactly the shouts of others since the client joined, each once and in the order of this
-- history.
pub inbox-heard :
    {s : System}
    → Reach start s
    → s.lock ≡ none
    → Distinct (take s.server.client_id s.server.clients)
    → (h : List Event) × (members_of h ≡ take s.server.client_id s.server.clients)
      × ((c : Client)
          → Memᴰ c (take s.server.client_id s.server.clients)
          → inbox c.sockfd s.sends ≡ heard c h)
inbox-heard r free apart =
    let x = atomic_shouts r free in
    (x.history, x.joined, λ c i. history_hears c x.history x.joined x.sent apart i)
