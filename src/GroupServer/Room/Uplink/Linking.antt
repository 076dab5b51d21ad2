-- ===== src/GroupServer/Room/Uplink/Linking.antt =====
-- A step of the server, or of a client, keeps what links them.
use computer_networks_lab.Prelude.{
  ℕ, zero, suc, ◌≢◌, ◌⊎◌, get_elem?, set, ◌+◌, ◌≤◌, ◌≡◌, refl, sym, subst, ap, ◌∙◌, none, some,
  List, [], ◌∷◌, ◌++◌, arith, append-nil, inl, inr, Bool-cases, ltb, ltb→lt, some-eq,
}
use computer_networks_lab.Libc.Text.{Bytes}
use computer_networks_lab.Chat.Threads.{Chat}
use computer_networks_lab.Chat.Threads as Client
use computer_networks_lab.Chat.Programs.{GroupStep}
use computer_networks_lab.Chat.Conversation.Flow.{Carry}
use computer_networks_lab.GroupServer.Table.{Client}
use computer_networks_lab.GroupServer.Threads.{
  shouting, receiving, unlocking, System, moved, Step, goes, main_accept, main_count, hear_recv,
  hear_lock, hear_shout, hear_unlock,
}
use computer_networks_lab.GroupServer.Threads.History.{Log}
use computer_networks_lab.GroupServer.Threads.Saying.{after_round, after_step}
use computer_networks_lab.GroupServer.Threads.Invariant.{
  Inv, shout_round-inside, shout_round-outside,
}
use computer_networks_lab.GroupServer.Threads.Joining.{accept-Registered}
use computer_networks_lab.GroupServer.Threads.Shouting.{shouting-Ready}
use computer_networks_lab.GroupServer.Room.{backwards, IsApart}
use computer_networks_lab.GroupServer.Room.Uplink.{Fetches, after_fetch}
use computer_networks_lab.GroupServer.Room.Uplink.Talking.{Talked, Prefix, Carry-next}
use computer_networks_lab.GroupServer.Room.Uplink.Hearing.{IsBorn, Link}
use computer_networks_lab.GroupServer.Room.Uplink.Seating.{registered-Link, counted-Link}
use computer_networks_lab.GroupServer.Room.Uplink.Serving.{
  at_place, received-Link, went_on-Link, locked-Link, ended-Link,
}

-- The frames that a client has sent, the oldest first.
abbrev pub outbox : (ℕ → Chat) → ℕ → List Bytes
outbox chats fd = backwards (chats fd).sent

get_elem?-set_cases :
    (xs : List Client) (n : ℕ) (v : Client) (i : ℕ) (c : Client)
    → get_elem? (set xs n v) i ≡ some c
    → ((i ≢ n) × (get_elem? xs i ≡ some c)) ⊎ (v ≡ c)
get_elem?-set_cases [] n v i c e = cc
get_elem?-set_cases (x ∷ xs) zero v zero c e = inr (some-eq e)
get_elem?-set_cases (x ∷ xs) zero v (suc i) c e = inl (omega arith, e)
get_elem?-set_cases (x ∷ xs) (suc n) v zero c e = inl (omega arith, e)
get_elem?-set_cases (x ∷ xs) (suc n) v (suc i) c e = elim (get_elem?-set_cases xs n v i c e) [
  | inl (other, old) ↦ inl (omega (arith, other), old)
  | inr own ↦ inr own
]

-- An entry of the table is an old one, or that of the new client.
placed :
    (old new : List Client) (n : ℕ) (client : Client)
    → new ≡ set old n client
    → (i : ℕ) (c : Client) → get_elem? new i ≡ some c
    → ((i ≢ n) × (get_elem? old i ≡ some c)) ⊎ ((client.id ≡ c.id) × (client.sockfd ≡ c.sockfd))
placed old new n client entry i c e =
    elim (get_elem?-set_cases old n client i c (ap (λ cs. get_elem? cs i) (sym entry) ∙ e)) [
      | inl same ↦ inl same
      | inr own ↦ inr (ap (λ d. d.id) own, ap (λ d. d.sockfd) own)
    ]

pub Step-Link :
    {input : ℕ → Bytes} {log : Log} {s t : System} {taken : ℕ → List Bytes} (chats : ℕ → Chat)
    → Inv log s
    → ((fd : ℕ) → Talked (input fd) (chats fd))
    → Link (outbox chats) log s taken
    → (st : Step s (goes t)) → Fetches chats taken st
    → Link (outbox chats) (after_step log st) t (after_fetch taken st)
Step-Link {s = s} chats inv talked x
      (main_accept k newsockfd auth buffer t greeting client idle fresh fills e) f =
    let (room, table, count, number, entry) =
      accept-Registered s.server t newsockfd auth greeting client inv.table e in
    registered-Link x k _ t.clients (s.greetings ++ greeting ∷ []) idle fresh refl number
      (λ i c at. placed s.server.clients t.clients s.server.client_id client entry i c at)
Step-Link chats inv talked x (main_count e) f = counted-Link x e
Step-Link {s = s} {taken = taken} chats inv talked x (hear_recv k bytes fits at) (rest, first) =
    let from = talked (s.hearers k).sockfd in
    let (line, holds) =
      Carry-next (backwards (taken k)) rest from.lines bytes
        (subst (λ fs. Carry fs from.lines) first from.carries) in
    received-Link x k bytes line rest at holds first
Step-Link chats inv talked x (hear_lock k text msg at free read size room) f =
    locked-Link x k text _ at read
Step-Link {log = log} {s = s} {taken = taken} chats inv talked x
      (hear_shout k i text msg pc out at e) f =
    elim (Bool-cases (ltb i s.server.client_id)) [
      | inl inside ↦
          let (msg', c, eq, entry, size) =
            shout_round-inside s.server (s.hearers k).id i text msg inv.table (inv.small k)
              (ltb→lt _ _ inside) (shouting-Ready inv k i text msg at).1 in
          subst
            (λ r.
              Link (outbox chats) (after_round log (s.hearers k).id text r.0)
                (record (moved s k r.0) { sends = s.sends ++ r.1 }) taken)
            (some-eq (sym eq ∙ e))
            (went_on-Link x k (shouting text (i + 1) msg') s.lock _ (subst IsBorn (sym at) tt) tt
              (at_place x k (shouting text i msg) at))
      | inr outside ↦
          let past : s.server.client_id ≤ i = ground arith in
          subst
            (λ r.
              Link (outbox chats) (after_round log (s.hearers k).id text r.0)
                (record (moved s k r.0) { sends = s.sends ++ r.1 }) taken)
            (some-eq (sym (shout_round-outside s.server (s.hearers k).id i text msg past) ∙ e))
            (ended-Link x k i text msg _ at)
    ]
Step-Link {s = s} chats inv talked x (hear_unlock k at) f =
    went_on-Link x k receiving none s.sends (subst IsBorn (sym at) tt) tt
      (at_place x k unlocking at)

-- What a chat has sent stays sent.
pub acts-Prefix :
    {c d : Chat} (st : GroupStep c d) → IsApart st → Prefix (backwards c.sent) (backwards d.sent)
acts-Prefix {c} (Client.hear_test e) l = ([], sym (append-nil (backwards c.sent)))
acts-Prefix (Client.hear_recv result fits e) l = elim l [ ]
acts-Prefix {c} (Client.hear_check e) l = ([], sym (append-nil (backwards c.sent)))
acts-Prefix {c} (Client.hear_print e) l = ([], sym (append-nil (backwards c.sent)))
acts-Prefix {c} (Client.hear_leave e) l = ([], sym (append-nil (backwards c.sent)))
acts-Prefix {c} (Client.talk_test e) l = ([], sym (append-nil (backwards c.sent)))
acts-Prefix {c} (Client.talk_read e) l = ([], sym (append-nil (backwards c.sent)))
acts-Prefix {c} (Client.talk_send e) l = (c.talk_buffer ∷ [], refl)
acts-Prefix {c} (Client.talk_send_fails e) l = ([], sym (append-nil (backwards c.sent)))
acts-Prefix {c} (Client.talk_check e) l = ([], sym (append-nil (backwards c.sent)))
acts-Prefix {c} (Client.talk_leave e) l = ([], sym (append-nil (backwards c.sent)))
acts-Prefix {c} Client.main_step l = ([], sym (append-nil (backwards c.sent)))
