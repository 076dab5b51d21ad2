-- ===== src/GroupServer/Threads/Atomic.antt =====
-- The group chat server refines its specification: a history of joins and shouts that happen at once.
use computer_networks_lab.Prelude.{
  ℕ, ◌+◌, ◌≤◌, ◌≡◌, refl, ap, ◌∙◌, sym, subst, none, some, [], ◌++◌, append-nil, arith, length,
  take, some-eq, inl, inr, Bool-cases, ltb, ltb→lt,
}
use computer_networks_lab.Libc.Text.{store, memset}
use computer_networks_lab.GroupServer.Table.{init}
use computer_networks_lab.GroupServer.Registry.{init-Inv}
use computer_networks_lab.GroupServer.Broadcast.{length-memset}
use computer_networks_lab.GroupServer.Threads.{
  locking, System, start, moved, goes, Step, Reach, here, next, main_accept, main_count, hear_recv,
  hear_lock, hear_shout, hear_unlock,
}
use computer_networks_lab.GroupServer.Threads.History.{
  members_of, sends_of, texts_of, Explained, Log, Chronicle, Chronicle-Explained,
}
use computer_networks_lab.GroupServer.Threads.Saying.{after_round, after_step, after_run, silence}
use computer_networks_lab.GroupServer.Threads.Invariant.{
  members, partial, pending, IsInside, Inv, shout_round-inside, shout_round-outside,
}
use computer_networks_lab.GroupServer.Threads.Steps.{moved-Inv}
use computer_networks_lab.GroupServer.Threads.Joining.{registered-Inv, counted-Inv}
use computer_networks_lab.GroupServer.Threads.Shouting.{
  locked-Inv, shouting-Ready, shouted-Inv, ended-Inv, unlocked-Inv,
}

pub start-Inv : Inv silence start
unfolding start init members_of sends_of texts_of
start-Inv = record {
  table = init-Inv;
  waiting = λ e. cc;
  small = λ k. omega arith;
  ready = λ k. tt;
  holder = λ k inside. absurd inside;
  before = [];
  explained = record { history = []; joined = refl; sent = refl; spoken = λ id. refl };
  told = refl;
}

-- Each step of the process keeps the invariant.
pub Step-Inv :
    {log : Log} {s t : System} → Inv log s → (st : Step s (goes t)) → Inv (after_step log st) t
Step-Inv inv (main_accept k newsockfd auth buffer t greeting client idle fresh fills e) =
    registered-Inv inv k newsockfd auth buffer t greeting client fresh e
Step-Inv inv (main_count e) = counted-Inv inv e
Step-Inv {s = s} inv (hear_recv k bytes fits at) =
    moved-Inv inv k
      (record (s.hearers k) { buffer = store bytes (s.hearers k).buffer; pc = locking })
      (inv.small k) tt (λ h. absurd h) (ap (partial (members s.server) (s.hearers k).id) (sym at))
Step-Inv inv (hear_lock k text msg at free read size room) =
    locked-Inv inv k text (memset msg 0 (length text + 10)) free (length-memset _ _ _ ∙ size)
Step-Inv {log} {s} inv (hear_shout k i text msg pc out at e) =
    elim (Bool-cases (ltb i s.server.client_id)) [
      | inl inside ↦
          let (msg', c, eq, entry, size) =
            shout_round-inside s.server (s.hearers k).id i text msg inv.table (inv.small k)
              (ltb→lt _ _ inside) (shouting-Ready inv k i text msg at).1 in
          subst
            (λ r.
              Inv (after_round log (s.hearers k).id text r.0)
                (record (moved s k r.0) { sends = s.sends ++ r.1 }))
            (some-eq (sym eq ∙ e))
            (shouted-Inv inv k i text msg at msg' c (ltb→lt _ _ inside) entry size)
      | inr outside ↦
          let past : s.server.client_id ≤ i = ground arith in
          subst
            (λ r.
              Inv (after_round log (s.hearers k).id text r.0)
                (record (moved s k r.0) { sends = s.sends ++ r.1 }))
            (some-eq (sym (shout_round-outside s.server (s.hearers k).id i text msg past) ∙ e))
            (ended-Inv inv k i text msg at past)
    ]
Step-Inv inv (hear_unlock k at) = unlocked-Inv inv k at

pub Reach-Inv : {log : Log} {s t : System} → Inv log s → (r : Reach s t) → Inv (after_run log r) t
Reach-Inv inv here = inv
Reach-Inv inv (next r st) = Step-Inv (Reach-Inv inv r) st

pub Reach-Chronicle :
    {s : System} (r : Reach start s)
    → s.lock ≡ none
    → Chronicle (after_run silence r) (members s.server) s.sends
Reach-Chronicle {s} r free =
    let inv = Reach-Inv start-Inv r in
    subst (Chronicle (after_run silence r) (members s.server))
      (sym (
        inv.told
        ∙ (ap (λ l. inv.before ++ pending (members s.server) s.hearers l) free
            ∙ append-nil inv.before)))
      inv.explained

-- In every state that the process can come to while the mutex is free, what has been sent is what a
-- history of joins and shouts sends in which each happens at once: the members are the clients
-- counted so far, and a shout reaches all members of its time but its sender, in their order.
pub atomic_shouts :
    {s : System}
    → Reach start s
    → s.lock ≡ none
    → Explained (take s.server.client_id s.server.clients) s.sends
atomic_shouts r free = Chronicle-Explained (Reach-Chronicle r free)

-- In every state that the process can come to, at most one thread is inside shout, and it holds the
-- mutex.
pub mutual_exclusion :
    {s : System} (j k : ℕ)
    → Reach start s
    → IsInside (s.hearers j).pc
    → IsInside (s.hearers k).pc
    → (j ≡ k) × (s.lock ≡ some k)
mutual_exclusion j k r hj hk =
    let inv = Reach-Inv start-Inv r in
    (some-eq (sym (inv.holder j hj) ∙ inv.holder k hk), inv.holder k hk)
