-- ===== src/GroupServer/Threads/Joining.antt =====
-- Main registers and counts a client: the invariant of the threads is kept.
use native.Mathlib.Numerals.{add-one}
use computer_networks_lab.Prelude.{
  ℕ, suc, zero, ◌+◌, ◌<◌, ◌≡◌, refl, ap, ◌∙◌, sym, subst, none, some, Option, List, [], ◌∷◌, ◌++◌,
  arith, length, length-take, take, take-append_of_le, some-eq, inl, inr, Bool-cases, ltb, ltb→lt,
  set,
}
use computer_networks_lab.Libc.Text.{Bytes}
use computer_networks_lab.GroupServer.Table.{Client, Server, Send, accept_client, max_num_client}
use computer_networks_lab.GroupServer.Registry as Registry
use computer_networks_lab.GroupServer.Registry.{Numbered, accept_client_lem, accept_client_full}
use computer_networks_lab.GroupServer.Threads.{
  Pc, unborn, receiving, locking, shouting, unlocking, Hearer, accepting, counting, System, update,
}
use computer_networks_lab.GroupServer.Threads.History.{
  Log, Chronicle, Chronicle-joins, broadcast, take-suc, take-set_self,
}
use computer_networks_lab.GroupServer.Threads.Invariant.{
  members, partial, pending, Ready, Inv, pending-update, Numbered-get_elem?,
}
use computer_networks_lab.GroupServer.Threads.Steps.{replaced-Inv}

Numbered-pred : (i n : ℕ) (cs : List Client) → Numbered i (suc n) cs → Numbered i n cs
Numbered-pred i zero cs k = tt
Numbered-pred i (suc n) [] k = elim k [ ]
Numbered-pred i (suc n) (c ∷ cs) k = (k.0, Numbered-pred (suc i) n cs k.1)

-- What main knows after an accept that is inside the table.
pub accept-Registered :
    (s t : Server) (newsockfd : ℕ) (auth : Bytes) (greeting : Send) (client : Client)
    → Registry.Inv s
    → accept_client s newsockfd auth ≡ some (t, greeting, client)
    → (s.client_id < max_num_client)
      × Registry.Inv t
      × (t.client_id ≡ s.client_id + 1)
      × (client.id ≡ s.client_id)
      × (t.clients ≡ set s.clients s.client_id client)
accept-Registered s t newsockfd auth greeting client inv e =
    elim (Bool-cases (ltb s.client_id max_num_client)) [
      | inl room ↦
          let (eq, inv') = accept_client_lem s newsockfd auth inv (ltb→lt _ _ room) in
          let same = some-eq (sym eq ∙ e) in
          (
            ltb→lt _ _ room,
            subst Registry.Inv (ap (λ r. r.0) same) inv',
            ap (λ r. r.0.client_id) (sym same),
            ap (λ r. r.2.id) (sym same),
            ap (λ r. r.0.clients) (sym same)
                ∙ ap (λ c. set s.clients s.client_id c) (ap (λ r. r.2) same),
          )
      | inr full ↦
          absurd (cc (e, accept_client_full s newsockfd auth inv (ground (arith, inv.room))))
    ]

Ready-mono : (pc : Pc) (n : ℕ) → Ready n pc → Ready (n + 1) pc
Ready-mono unborn n h = tt
Ready-mono receiving n h = tt
Ready-mono locking n h = tt
Ready-mono (shouting text i msg) n h = omega arith
Ready-mono unlocking n h = tt

partial-grown :
    (ms : List Client) (c : Client) (id : ℕ) (pc : Pc)
    → Ready (length ms) pc
    → partial (ms ++ c ∷ []) id pc ≡ partial ms id pc
partial-grown ms c id unborn h = refl
partial-grown ms c id receiving h = refl
partial-grown ms c id locking h = refl
partial-grown ms c id (shouting text i msg) h =
    ap (broadcast id text) (take-append_of_le ms (c ∷ []) i h.0)
partial-grown ms c id unlocking h = refl

pending-grown :
    (ms : List Client) (c : Client) (f : ℕ → Hearer) (lock : Option ℕ)
    → ((k : ℕ) → Ready (length ms) (f k).pc)
    → pending (ms ++ c ∷ []) f lock ≡ pending ms f lock
pending-grown ms c f none h = refl
pending-grown ms c f (some k) h = partial-grown ms c (f k).id (f k).pc (h k)

module _ {log : Log} {s : System} (inv : Inv log s) where
  -- Main has written the next entry, greeted the client and created thread `k`.
  pub registered-Inv :
      (k newsockfd : ℕ) (auth buffer : Bytes) (t : Server) (greeting : Send) (client : Client)
      → (s.hearers k).pc ≡ unborn
      → accept_client s.server newsockfd auth ≡ some (t, greeting, client)
      → Inv log (record s {
        server = record { clients = t.clients; client_id = s.server.client_id };
        main_pc = counting;
        hearers =
            update s.hearers k
              (record { id = client.id; sockfd = client.sockfd; buffer = buffer; pc = receiving });
        greetings = s.greetings ++ greeting ∷ [];
      })
  registered-Inv k newsockfd auth buffer t greeting client fresh e =
      let (room, table, count, number, entry) =
        accept-Registered s.server t newsockfd auth greeting client inv.table e in
      let more : t.client_id ≡ suc s.server.client_id = omega (arith, count) in
      let numbered : Numbered 0 (suc s.server.client_id) t.clients =
        subst (λ n. Numbered 0 n t.clients) more table.numbered in
      let same : take s.server.client_id t.clients ≡ members s.server =
        ap (take s.server.client_id) entry
        ∙ take-set_self s.server.clients s.server.client_id client in
      let x : Hearer = record {
        id = client.id;
        sockfd = client.sockfd;
        buffer = buffer;
        pc = receiving;
      } in
      replaced-Inv inv k x t.clients counting s.lock s.sends (s.greetings ++ greeting ∷ [])
        inv.before
        (record {
          size = table.size;
          room = inv.table.room;
          numbered = Numbered-pred 0 s.server.client_id t.clients numbered;
        })
        (λ e'. (room, numbered)) (omega (arith, number)) tt (λ j ne. inv.holder j) (λ h. absurd h)
        (subst (λ ms. Chronicle log ms inv.before) (sym same) inv.explained)
        (inv.told
          ∙ ap (λ out. inv.before ++ out)
              (sym (
                ap (λ ms. pending ms (update s.hearers k x) s.lock) same
                ∙ pending-update (members s.server) s.hearers s.lock k x
                    (ap (λ pc. partial (members s.server) (s.hearers k).id pc) (sym fresh)))))

  -- Main has counted the client.
  pub counted-Inv :
      s.main_pc ≡ counting
      → Inv log (record s {
        server = record s.server { client_id = s.server.client_id + 1 };
        main_pc = accepting;
      })
  counted-Inv e =
      let (room, numbered) = inv.waiting e in
      let (c, entry, number) =
        Numbered-get_elem? 0 (suc s.server.client_id) s.server.clients s.server.client_id numbered
          (omega arith) in
      let more : s.server.client_id + 1 ≡ suc s.server.client_id = omega arith in
      let all : s.server.client_id ≡ length (members s.server) =
        omega (
          arith,
          length-take s.server.client_id s.server.clients,
          inv.table.size,
          inv.table.room,
        ) in
      let grown : take (s.server.client_id + 1) s.server.clients ≡ members s.server ++ c ∷ [] =
        ap (λ n. take n s.server.clients) more
        ∙ take-suc s.server.clients s.server.client_id entry in
      record {
        table = record {
          size = inv.table.size;
          room = omega arith;
          numbered = rw add-one numbered;
        };
        waiting = λ e'. cc;
        small = inv.small;
        ready = λ k. Ready-mono (s.hearers k).pc s.server.client_id (inv.ready k);
        holder = inv.holder;
        before = inv.before;
        explained =
            subst (λ ms. Chronicle log ms inv.before) (sym grown) (Chronicle-joins c inv.explained);
        told =
            inv.told
            ∙ ap (λ out. inv.before ++ out)
                (sym (
                  ap (λ ms. pending ms s.hearers s.lock) grown
                  ∙ pending-grown (members s.server) c s.hearers s.lock
                      (λ k. subst (λ n. Ready n (s.hearers k).pc) all (inv.ready k))));
      }
