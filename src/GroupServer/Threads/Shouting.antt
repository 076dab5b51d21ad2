-- ===== src/GroupServer/Threads/Shouting.antt =====
-- A thread goes through its shout: the invariant of the threads is kept. A shout counts as made when its
-- loop ends.
use computer_networks_lab.Prelude.{
  ℕ, suc, zero, ◌+◌, ◌≤◌, ◌<◌, ◌≡◌, refl, ap, ◌∙◌, sym, subst, none, some, List, [], ◌∷◌, ◌++◌,
  append_assoc, arith, length, length-take, take_of_le, get_elem?, take, some-eq,
}
use computer_networks_lab.Libc.Text.{Bytes}
use computer_networks_lab.GroupServer.Table.{Client}
use computer_networks_lab.GroupServer.Broadcast.{others}
use computer_networks_lab.GroupServer.Threads.{
  receiving, shouting, unlocking, Hearer, System, update, moved,
}
use computer_networks_lab.GroupServer.Threads.History.{
  Log, says, Chronicle-shouts, broadcast, broadcast-append, take-suc,
}
use computer_networks_lab.GroupServer.Threads.Invariant.{
  members, partial, pending, IsInside, Ready, Inv, update_self,
}
use computer_networks_lab.GroupServer.Threads.Steps.{replaced-Inv}

pub get_elem?-take : (xs : List Client) (n i : ℕ) → i < n → get_elem? (take n xs) i ≡ get_elem? xs i
get_elem?-take xs zero i h = absurd (omega arith)
get_elem?-take [] (suc n) i h = refl
get_elem?-take (x ∷ xs) (suc n) zero h = refl
get_elem?-take (x ∷ xs) (suc n) (suc i) h = get_elem?-take xs n i (omega arith)

module _ {log : Log} {s : System} (inv : Inv log s) where
  -- Thread `k` has taken the mutex.
  pub locked-Inv :
      (k : ℕ) (text msg : Bytes)
      → s.lock ≡ none
      → length msg ≡ length text + 10
      → Inv log (record (moved s k (shouting text 0 msg)) { lock = some k })
  unfolding others
  locked-Inv k text msg free size =
      let x : Hearer = record (s.hearers k) { pc = shouting text 0 msg } in
      replaced-Inv inv k x s.server.clients s.main_pc (some k) s.sends s.greetings inv.before
        inv.table inv.waiting (inv.small k) (omega arith, size)
        (λ j ne inside. absurd (cc (free, inv.holder j inside))) (λ h. refl) inv.explained
        (inv.told
          ∙ (ap (λ l. inv.before ++ pending (members s.server) s.hearers l) free
              ∙ sym (
                  ap (λ h. inv.before ++ partial (members s.server) h.id h.pc)
                    (update_self s.hearers k x))))

  module _ (k i : ℕ) (text msg : Bytes) (at : (s.hearers k).pc ≡ shouting text i msg) where
    own : s.lock ≡ some k
    own = inv.holder k (subst IsInside (sym at) tt)

    so_far : s.sends ≡ inv.before ++ broadcast (s.hearers k).id text (take i (members s.server))
    so_far =
        inv.told
        ∙ (ap (λ l. inv.before ++ pending (members s.server) s.hearers l) own
            ∙ ap (λ pc. inv.before ++ partial (members s.server) (s.hearers k).id pc) at)

    pub shouting-Ready : Ready s.server.client_id (shouting text i msg)
    shouting-Ready = subst (Ready s.server.client_id) at (inv.ready k)

    -- What is pending when the thread has become `x` and keeps the mutex.
    pending_own :
        (x : Hearer)
        → pending (members s.server) (update s.hearers k x) s.lock
          ≡ partial (members s.server) x.id x.pc
    pending_own x =
        ap (pending (members s.server) (update s.hearers k x)) own
        ∙ ap (λ h. partial (members s.server) h.id h.pc) (update_self s.hearers k x)

    -- Thread `k` has been through one round of its shout.
    pub shouted-Inv :
        (msg' : Bytes) (c : Client)
        → i < s.server.client_id
        → get_elem? s.server.clients i ≡ some c
        → length msg' ≡ length text + 10
        → Inv log (record (moved s k (shouting text (i + 1) msg')) {
          sends = s.sends ++ broadcast (s.hearers k).id text (c ∷ []);
        })
    shouted-Inv msg' c inside entry size =
        let x : Hearer = record (s.hearers k) { pc = shouting text (i + 1) msg' } in
        let ms = members s.server in
        let id = (s.hearers k).id in
        let more : i + 1 ≡ suc i = omega arith in
        let one_more : take (i + 1) ms ≡ take i ms ++ c ∷ [] =
          ap (λ n. take n ms) more
          ∙ take-suc ms i (get_elem?-take s.server.clients s.server.client_id i inside ∙ entry) in
        replaced-Inv inv k x s.server.clients s.main_pc s.lock
          (s.sends ++ broadcast id text (c ∷ [])) s.greetings inv.before inv.table inv.waiting
          (inv.small k) (omega arith, size) (λ j ne. inv.holder j) (λ h. own) inv.explained
          (ap (λ out. out ++ broadcast id text (c ∷ [])) so_far
            ∙ (append_assoc inv.before (broadcast id text (take i ms)) (broadcast id text (c ∷ []))
                ∙ ap (λ out. inv.before ++ out)
                    (sym (
                      pending_own x
                      ∙ (ap (broadcast id text) one_more
                          ∙ broadcast-append id text (take i ms) (c ∷ []))))))

    -- Thread `k` has found the end of the table: its shout is made now.
    pub ended-Inv :
        s.server.client_id ≤ i
        → Inv
            (says log (s.hearers k).id text)
            (record (moved s k unlocking) { sends = s.sends ++ [] })
    ended-Inv outside =
        let x : Hearer = record (s.hearers k) { pc = unlocking } in
        let ms = members s.server in
        let id = (s.hearers k).id in
        replaced-Inv inv k x s.server.clients s.main_pc s.lock (s.sends ++ []) s.greetings
          (inv.before ++ broadcast id text ms) inv.table inv.waiting (inv.small k) tt
          (λ j ne. inv.holder j) (λ h. own) (Chronicle-shouts id text inv.explained)
          (ap (λ out. out ++ [])
              (so_far
                ∙ ap (λ cs. inv.before ++ broadcast id text cs)
                    (take_of_le i ms
                      (omega (arith, length-take s.server.client_id s.server.clients))))
            ∙ ap (λ out. (inv.before ++ broadcast id text ms) ++ out) (sym (pending_own x)))

  -- Thread `k` has released the mutex.
  pub unlocked-Inv :
      (k : ℕ)
      → (s.hearers k).pc ≡ unlocking
      → Inv log (record (moved s k receiving) { lock = none })
  unlocked-Inv k at =
      let x : Hearer = record (s.hearers k) { pc = receiving } in
      let own : s.lock ≡ some k = inv.holder k (subst IsInside (sym at) tt) in
      replaced-Inv inv k x s.server.clients s.main_pc none s.sends s.greetings inv.before inv.table
        inv.waiting (inv.small k) tt
        (λ j ne inside. absurd (ne (some-eq (sym (inv.holder j inside) ∙ own)))) (λ h. absurd h)
        inv.explained
        (inv.told
          ∙ (ap (λ l. inv.before ++ pending (members s.server) s.hearers l) own
              ∙ ap (λ pc. inv.before ++ partial (members s.server) (s.hearers k).id pc) at))
