-- ===== src/GroupServer/Threads/History.antt =====
-- The specification of the group chat: a history of joins and shouts, each of which happens at once.
use computer_networks_lab.Prelude.{
  ℕ, suc, zero, ◌≡◌, refl, ap, ◌∙◌, some, List, [], ◌∷◌, ◌++◌, map, arith, get_elem?, take, set,
  ◌==◌, if◌then◌else◌, some-eq, false, true,
}
use computer_networks_lab.Libc.Text.{Bytes}
use computer_networks_lab.GroupServer.Table.{Client, Send}
use computer_networks_lab.GroupServer.Broadcast.{others, frame, deliver}

pub data Event : Type 0 where
  joins : Client → Event
  shouts : (id : ℕ) (text : Bytes) → Event

-- A history has its newest event first. Its members are in the order in which they joined.
unfoldable pub members_of : List Event → List Client
members_of [] = []
members_of (joins c ∷ h) = members_of h ++ c ∷ []
members_of (shouts id text ∷ h) = members_of h

-- The message of a shout, to some of the members.
abbrev pub broadcast : ℕ → Bytes → List Client → List Send
broadcast id text members = map (deliver (frame id text)) (others id members)

-- A shout reaches all who are members at its time, but its sender.
unfoldable pub sends_of : List Event → List Send
unfolding members_of
sends_of [] = []
sends_of (joins c ∷ h) = sends_of h
sends_of (shouts id text ∷ h) = sends_of h ++ broadcast id text (members_of h)

-- What has been sent to these members is what a history of atomic joins and shouts sends.
pub record Explained (members : List Client) (sends : List Send) : Type 0 where
  pub history : List Event
  pub joined : members_of history ≡ members
  pub sent : sends_of history ≡ sends

-- What client `id` has said, the oldest first.
unfoldable pub texts_of : ℕ → List Event → List Bytes
texts_of id [] = []
texts_of id (joins c ∷ h) = texts_of id h
texts_of id (shouts by text ∷ h) =
    let rest = texts_of id h in if by == id then rest ++ text ∷ [] else rest

-- What each client has said.
abbrev pub Log : Type 0
Log = ℕ → List Bytes

abbrev pub says : Log → ℕ → Bytes → Log
says log by text id = if by == id then log id ++ text ∷ [] else log id

-- The history has these shouts of each client.
pub record Chronicle (log : Log) (members : List Client) (sends : List Send) : Type 0 where
  pub history : List Event
  pub joined : members_of history ≡ members
  pub sent : sends_of history ≡ sends
  pub spoken : (id : ℕ) → texts_of id history ≡ log id

pub Chronicle-Explained :
    {log : Log} {members : List Client} {sends : List Send}
    → Chronicle log members sends
    → Explained members sends
Chronicle-Explained x = record { history = x.history; joined = x.joined; sent = x.sent }

pub Chronicle-joins :
    {log : Log} {members : List Client} {sends : List Send} (c : Client)
    → Chronicle log members sends
    → Chronicle log (members ++ c ∷ []) sends
unfolding members_of sends_of texts_of
Chronicle-joins c x = record {
  history = joins c ∷ x.history;
  joined = ap (λ ms. ms ++ c ∷ []) x.joined;
  sent = x.sent;
  spoken = x.spoken;
}

pub Chronicle-shouts :
    {log : Log} {members : List Client} {sends : List Send} (id : ℕ) (text : Bytes)
    → Chronicle log members sends
    → Chronicle (says log id text) members (sends ++ broadcast id text members)
unfolding members_of sends_of texts_of
Chronicle-shouts id text x = record {
  history = shouts id text ∷ x.history;
  joined = x.joined;
  sent = rw (x.joined, x.sent) refl;
  spoken = λ j. ap (λ ts. if id == j then ts ++ text ∷ [] else ts) (x.spoken j);
}

others-append : (id : ℕ) (cs ds : List Client) → others id (cs ++ ds) ≡ others id cs ++ others id ds
unfolding others
others-append id [] ds = refl
others-append id (c ∷ cs) ds = ground (arith, others-append id cs ds)

pub map_append :
    {A B : Type 0} (f : A → B) (xs ys : List A) → map f (xs ++ ys) ≡ map f xs ++ map f ys
map_append f [] ys = refl
map_append f (x ∷ xs) ys = ap (◌∷◌ (f x)) (map_append f xs ys)

pub broadcast-append :
    (id : ℕ) (text : Bytes) (cs ds : List Client)
    → broadcast id text (cs ++ ds) ≡ broadcast id text cs ++ broadcast id text ds
broadcast-append id text cs ds =
    ap (map (deliver (frame id text))) (others-append id cs ds)
    ∙ map_append _ (others id cs) (others id ds)

-- One more member.
pub take-suc :
    {A : Type 0} (xs : List A) (i : ℕ) {x : A}
    → get_elem? xs i ≡ some x
    → take (suc i) xs ≡ take i xs ++ x ∷ []
take-suc [] i e = cc
take-suc (x ∷ xs) zero e = ap (λ y. y ∷ []) (some-eq e)
take-suc (x ∷ xs) (suc i) e = ap (◌∷◌ x) (take-suc xs i e)

pub take-set_self : {A : Type 0} (xs : List A) (i : ℕ) (x : A) → take i (set xs i x) ≡ take i xs
take-set_self [] i x = refl
take-set_self (y ∷ xs) zero x = refl
take-set_self (y ∷ xs) (suc i) x = ap (◌∷◌ y) (take-set_self xs i x)

pub broadcast_own :
    (id : ℕ) (text : Bytes) (c : Client) → (c.id == id) ≡ true → broadcast id text (c ∷ []) ≡ []
unfolding others
broadcast_own id text c own = rw own refl

pub broadcast_other :
    (id : ℕ) (text : Bytes) (c : Client)
    → (c.id == id) ≡ false
    → broadcast id text (c ∷ []) ≡ deliver (frame id text) c ∷ []
unfolding others
broadcast_other id text c other = rw other refl
