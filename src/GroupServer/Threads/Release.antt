-- ===== src/GroupServer/Threads/Release.antt =====
-- The mutex of the group chat server does not stay locked.
use computer_networks_lab.Prelude.{
  ℕ, suc, zero, ◌+◌, ◌-◌, ◌≤◌, ◌≡◌, ◌≢◌, refl, ap, ◌∙◌, sym, subst, none, some, List, [], ◌++◌,
  arith, some-eq, inl, inr, Bool-cases, ltb, leb, length, ◌==◌, Option-cases, get_elem?,
}
use computer_networks_lab.Libc.Text.{Bytes}
use computer_networks_lab.GroupServer.Table.{Server, Send}
use computer_networks_lab.GroupServer.Threads.{
  Pc, unborn, receiving, locking, shouting, unlocking, Hearer, System, update, shout_round, start,
  msg_len, moved, goes, Step, Reach, here, next, main_accept, main_count, hear_recv, hear_lock,
  hear_shout, hear_unlock,
}
use computer_networks_lab.GroupServer.Threads.Invariant.{
  IsInside, Inv, update_all, update_self, shout_round-inside, shout_round-outside,
}
use computer_networks_lab.GroupServer.Threads.Shouting.{shouting-Ready}
use computer_networks_lab.GroupServer.Threads.History.{Log}
use computer_networks_lab.GroupServer.Threads.Saying.{after_round, after_run, silence}
use computer_networks_lab.GroupServer.Threads.Atomic.{start-Inv, Step-Inv, Reach-Inv}

-- The thread that holds the mutex is inside shout.
abbrev IsHeldInside : System → Type 0
IsHeldInside s = (k : ℕ) → s.lock ≡ some k → IsInside (s.hearers k).pc

shout_round-IsInside :
    (s : Server) (id : ℕ) (text : Bytes) (i : ℕ) (msg : Bytes) {pc : Pc} {out : List Send}
    → shout_round s id text i msg ≡ some (pc, out)
    → IsInside pc
unfolding shout_round
shout_round-IsInside s id text i msg {pc} {out} e = elim (Bool-cases (ltb i s.client_id)) [
  | inr outside ↦ subst (λ r. IsInside r.0) (some-eq (rw outside at e)) tt
  | inl inside ↦ elim (Bool-cases (i == id)) [
    | inl own ↦ subst (λ r. IsInside r.0) (some-eq (rw (inside, own) at e)) tt
    | inr other ↦ elim (Option-cases (get_elem? s.clients i)) [
      | inl past ↦ absurd (cc (rw (inside, other, past) at e))
      | inr (c, entry) ↦ elim (Bool-cases (leb (msg_len text) (length msg))) [
        | inl room ↦ subst (λ r. IsInside r.0) (some-eq (rw (inside, other, entry, room) at e)) tt
        | inr short ↦ absurd (cc (rw (inside, other, entry, short) at e))
      ]
    ]
  ]
]

module _ (s : System) (held : IsHeldInside s) where
  -- Thread `k` has become `x`; the mutex is as it was.
  replaced_held :
      (k : ℕ) (x : Hearer)
      → (s.lock ≡ some k → IsInside x.pc)
      → IsHeldInside (record s { hearers = update s.hearers k x })
  replaced_held k x own =
      update_all (λ j h. s.lock ≡ some j → IsInside h.pc) s.hearers k x (λ j ne. held j) own

  outside_free : (k : ℕ) (pc : Pc) → (s.hearers k).pc ≡ pc → (IsInside pc → ⊥) → s.lock ≡ some k → ⊥
  outside_free k pc at out e = out (subst IsInside at (held k e))

Step-IsHeldInside : {s t : System} → Step s (goes t) → IsHeldInside s → IsHeldInside t
Step-IsHeldInside {s} (main_accept k newsockfd auth buffer t greeting client idle fresh fills e)
      held =
    replaced_held s held k _ (λ l. absurd (outside_free s held k unborn fresh (λ h. h) l))
Step-IsHeldInside (main_count e) held = held
Step-IsHeldInside {s} (hear_recv k bytes fits at) held =
    replaced_held s held k _ (λ l. absurd (outside_free s held k receiving at (λ h. h) l))
Step-IsHeldInside {s} (hear_lock k text msg at free read size room) held =
    update_all (λ j h. some k ≡ some j → IsInside h.pc) s.hearers k _
      (λ j ne e. absurd (ne (sym (some-eq e)))) (λ e. tt)
Step-IsHeldInside {s} (hear_shout k i text msg pc out at e) held =
    replaced_held s held k _ (λ l. shout_round-IsInside s.server (s.hearers k).id text i msg e)
Step-IsHeldInside (hear_unlock k at) held = λ j e. cc

Reach-IsHeldInside : {s t : System} → Reach s t → IsHeldInside s → IsHeldInside t
Reach-IsHeldInside here held = held
Reach-IsHeldInside (next r st) held = Step-IsHeldInside st (Reach-IsHeldInside r held)

start-IsHeldInside : IsHeldInside start
unfolding start
start-IsHeldInside k e = cc

abbrev pub steps : {s t : System} → Reach s t → ℕ
steps here = 0
steps (next r st) = suc (steps r)

-- What thread `k` does on its own to the rest of the process, until it has released the mutex.
pub record Releases (k : ℕ) (s t : System) : Type 0 where
  pub run : Reach s t
  pub free : t.lock ≡ none
  pub others : (j : ℕ) → j ≢ k → t.hearers j ≡ s.hearers j
  pub server : t.server ≡ s.server

update_other : (f : ℕ → Hearer) (k : ℕ) (x : Hearer) (j : ℕ) → j ≢ k → update f k x j ≡ f j
update_other f k x j ne = ground arith

module _ (init : System) (k : ℕ) where
  -- A state that thread `k` has come to alone.
  record Alone (n : ℕ) (s : System) : Type 0 where
    log : Log
    inv : Inv log s
    run : Reach init s
    length : steps run ≡ n
    others : (j : ℕ) → j ≢ k → s.hearers j ≡ init.hearers j
    server : s.server ≡ init.server

  unlock-Alone :
      (n : ℕ) (s : System)
      → Alone n s
      → (s.hearers k).pc ≡ unlocking
      → (t : System) × (r : Releases k init t) × (steps r.run ≡ suc n)
  unlock-Alone n s a at = (
    record (moved s k receiving) { lock = none },
    record {
      run = next a.run (hear_unlock k at);
      free = refl;
      others = λ j ne. update_other s.hearers k _ j ne ∙ a.others j ne;
      server = a.server;
    },
    ap suc a.length,
  )

  -- A round of shout.
  round-Alone :
      (n : ℕ) (s : System) (i : ℕ) (text msg : Bytes) (pc : Pc) (out : List Send)
      → Alone n s
      → (s.hearers k).pc ≡ shouting text i msg
      → shout_round s.server (s.hearers k).id text i msg ≡ some (pc, out)
      → Alone (suc n) (record (moved s k pc) { sends = s.sends ++ out })
  round-Alone n s i text msg pc out a at e = record {
    log = after_round a.log (s.hearers k).id text pc;
    inv = Step-Inv a.inv (hear_shout k i text msg pc out at e);
    run = next a.run (hear_shout k i text msg pc out at e);
    length = ap suc a.length;
    others = λ j ne. update_other s.hearers k _ j ne ∙ a.others j ne;
    server = a.server;
  }

  -- The rounds that are left, and the release.
  finish-Alone :
      (left n : ℕ) (s : System) (i : ℕ) (text msg : Bytes)
      → Alone n s
      → (s.hearers k).pc ≡ shouting text i msg
      → i + left ≡ s.server.client_id
      → (t : System) × (r : Releases k init t) × (steps r.run ≡ left + (n + 2))
  finish-Alone zero n s i text msg a at end =
      let e = shout_round-outside s.server (s.hearers k).id i text msg (omega (arith, end)) in
      let (t, r, count) =
        unlock-Alone (suc n) _ (round-Alone n s i text msg unlocking [] a at e)
          (ap (λ h. h.pc) (update_self s.hearers k _)) in
      (t, r, omega (arith, count))
  finish-Alone (suc left) n s i text msg a at more =
      let (msg', c, e, entry, size) =
        shout_round-inside s.server (s.hearers k).id i text msg a.inv.table (a.inv.small k)
          (omega (arith, more)) (shouting-Ready a.inv k i text msg at).1 in
      let (t, r, count) =
        finish-Alone left (suc n) _ (i + 1) text msg' (round-Alone n s i text msg _ _ a at e)
          (ap (λ h. h.pc) (update_self s.hearers k _)) (omega (arith, more)) in
      (t, r, omega (arith, count))

-- Whatever state the process has come to, a thread that holds the mutex can release it by steps of its
-- own alone, at most two more than there are clients, and it needs no other thread for that: the other
-- threads and the table stay as they are.
pub Releases-steps :
    {s : System} (k : ℕ)
    → Reach start s
    → s.lock ≡ some k
    → (t : System) × (r : Releases k s t) × (steps r.run ≤ s.server.client_id + 2)
Releases-steps {s} k reached locked =
    go (s.hearers k).pc refl (Reach-IsHeldInside reached start-IsHeldInside k locked)
  where
    inv : Inv (after_run silence reached) s
    inv = Reach-Inv start-Inv reached

    alone : Alone s k 0 s
    alone = record {
      log = after_run silence reached;
      inv = inv;
      run = here;
      length = refl;
      others = λ j ne. refl;
      server = refl;
    }

    go :
        (pc : Pc)
        → (s.hearers k).pc ≡ pc
        → IsInside pc
        → (t : System) × (r : Releases k s t) × (steps r.run ≤ s.server.client_id + 2)
    go unborn at h = absurd h
    go receiving at h = absurd h
    go locking at h = absurd h
    go (shouting text i msg) at h =
        let ready : i ≤ s.server.client_id = (shouting-Ready inv k i text msg at).0 in
        let (t, r, count) =
          finish-Alone s k (s.server.client_id - i) 0 s i text msg alone at
            (omega (arith, ready)) in
        (t, r, omega (arith, count))
    go unlocking at h =
        let (t, r, count) = unlock-Alone s k 0 s alone at in (t, r, omega (arith, count))
