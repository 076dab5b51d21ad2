-- ===== src/GroupServer/Threads/Invariant.antt =====
-- What holds of the threads of the group chat server in every state: who holds the mutex, and which
-- part of a shout has been sent.
use computer_networks_lab.Prelude.{
  length-append, subst, ℕ, suc, zero, ◌+◌, ◌≤◌, ◌<◌, ◌≡◌, ◌≢◌, refl, ap, ◌∙◌, sym, none, some,
  Option, List, [], ◌∷◌, ◌++◌, arith, length, get_elem?, take, ◌==◌, Bool-cases, inl, inr, ==_iff,
  lt→ltb, le→leb,
}
use computer_networks_lab.Libc.Text.{Bytes, memset, snprintf}
use computer_networks_lab.GroupServer.Table.{Client, Server, Send, message}
use computer_networks_lab.GroupServer.Registry as Registry
use computer_networks_lab.GroupServer.Registry.{Numbered}
use computer_networks_lab.GroupServer.Broadcast.{
  others, frame, deliver, frame-fills, length-memset, length-message,
}
use computer_networks_lab.GroupServer.Threads.{
  Pc, unborn, shouting, unlocking, Hearer, counting, System, update, shout_round, msg_len,
}
use computer_networks_lab.GroupServer.Threads.History.{
  broadcast_own, broadcast_other, broadcast, Log, Chronicle,
}

abbrev pub members : Server → List Client
members s = take s.client_id s.clients

-- What the thread has sent of its message.
abbrev pub partial : List Client → ℕ → Pc → List Send
partial ms id unborn = []
partial ms id (shouting text i msg) = broadcast id text (take i ms)
partial ms id pc = []

abbrev pub pending : List Client → (ℕ → Hearer) → Option ℕ → List Send
pending ms f none = []
pending ms f (some k) = partial ms (f k).id (f k).pc

abbrev pub IsInside : Pc → Type 0
IsInside unborn = ⊥
IsInside (shouting text i msg) = Unit
IsInside unlocking = Unit
IsInside pc = ⊥

abbrev pub Ready : ℕ → Pc → Type 0
Ready n unborn = Unit
Ready n (shouting text i msg) = (i ≤ n) × (length msg ≡ length text + 10)
Ready n pc = Unit

pub record Inv (log : Log) (s : System) : Type 0 where
  pub table : Registry.Inv s.server
  pub waiting :
      s.main_pc ≡ counting
      → (s.server.client_id < 10) × Numbered 0 (suc s.server.client_id) s.server.clients
  pub small : (k : ℕ) → (s.hearers k).id < 10
  pub ready : (k : ℕ) → Ready s.server.client_id (s.hearers k).pc
  pub holder : (k : ℕ) → IsInside (s.hearers k).pc → s.lock ≡ some k
  pub before : List Send
  pub explained : Chronicle log (members s.server) before
  pub told : s.sends ≡ before ++ pending (members s.server) s.hearers s.lock

pub update_all :
    (P : ℕ → Hearer → Type 0) (f : ℕ → Hearer) (k : ℕ) (x : Hearer)
    → ((j : ℕ) → j ≢ k → P j (f j))
    → P k x
    → (j : ℕ) → P j (update f k x j)
update_all P f k x rest own j = elim (Bool-cases (j == k)) [
  | inl same ↦ rw same (subst (λ i. P i x) (sym ((==_iff j k).0 same)) own)
  | inr other ↦ rw other (rest j (λ e. absurd (ground arith)))
]

pub update_self : (f : ℕ → Hearer) (k : ℕ) (x : Hearer) → update f k x k ≡ x
update_self f k x = ground arith

pub pending-update :
    (ms : List Client) (f : ℕ → Hearer) (lock : Option ℕ) (k : ℕ) (x : Hearer)
    → partial ms x.id x.pc ≡ partial ms (f k).id (f k).pc
    → pending ms (update f k x) lock ≡ pending ms f lock
pending-update ms f none k x e = refl
pending-update ms f (some j) k x e = elim (Bool-cases (j == k)) [
  | inl same ↦ rw same (e ∙ ap (λ i. partial ms (f i).id (f i).pc) (sym ((==_iff j k).0 same)))
  | inr other ↦ rw other refl
]

pub Numbered-get_elem? :
    (i n : ℕ) (cs : List Client) (j : ℕ)
    → Numbered i n cs
    → j < n
    → (c : Client) × (get_elem? cs j ≡ some c) × (c.id ≡ i + j)
Numbered-get_elem? i zero cs j k h = absurd (omega arith)
Numbered-get_elem? i (suc n) [] j k h = absurd k
Numbered-get_elem? i (suc n) (c ∷ cs) zero k h = (c, refl, omega arith)
Numbered-get_elem? i (suc n) (c ∷ cs) (suc j) k h =
    let (d, e, number) = Numbered-get_elem? (suc i) n cs j k.1 (omega arith) in (d, e, omega arith)

-- A round of shout inside the table: what it sends is the message for one more member.
pub shout_round-inside :
    (s : Server) (id i : ℕ) (text msg : Bytes)
    → Registry.Inv s
    → id < 10
    → i < s.client_id
    → length msg ≡ length text + 10
    → (msg' : Bytes) × (c : Client) × (shout_round s id text i msg
        ≡ some (shouting text (i + 1) msg', broadcast id text (c ∷ [])))
      × (get_elem? s.clients i ≡ some c)
      × (length msg' ≡ length text + 10)
unfolding shout_round others
shout_round-inside s id i text msg inv small inside size =
    let (c, entry, number) = Numbered-get_elem? 0 s.client_id s.clients i inv.numbered inside in
    let written = snprintf msg (length text + 10) (message id text) in
    let fits : written ≡ frame id text = frame-fills id text msg small size in
    elim (Bool-cases (i == id)) [
      | inl own ↦ (
        msg,
        c,
        rw (lt→ltb _ _ inside, own)
            (ap (λ out. some (shouting text (i + 1) msg, out))
              (sym (broadcast_own id text c (ground arith)))),
        entry,
        size,
      )
      | inr other ↦ (
        memset written 0 (length text + 10),
        c,
        rw
            (
              lt→ltb _ _ inside,
              other,
              entry,
              le→leb (msg_len text) (length msg) (omega (arith, size)),
            )
            (ap (λ out. some (shouting text (i + 1) (memset written 0 (length text + 10)), out))
              (ap (λ b. deliver b c ∷ []) fits ∙ sym (broadcast_other id text c (ground arith)))),
        entry,
        length-memset _ _ _
            ∙ (ap length fits
                ∙ omega (
                  arith,
                  length-message id text small,
                  length-append (message id text) (0 ∷ []),
                )),
      )
    ]

pub shout_round-outside :
    (s : Server) (id i : ℕ) (text msg : Bytes)
    → s.client_id ≤ i
    → shout_round s id text i msg ≡ some (unlocking, [])
unfolding shout_round
shout_round-outside s id i text msg h = ground arith
