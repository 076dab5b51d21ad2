-- ===== src/GroupServer/Room/Uplink/Seating.antt =====
-- Main accepts and counts a client: what links the threads to their clients is kept.
use computer_networks_lab.Prelude.{
  ℕ, ◌+◌, ◌≤◌, ◌<◌, ◌≡◌, ◌≢◌, ◌⊎◌, get_elem?, refl, sym, subst, ap, some, List, [], ◌++◌, arith,
  inl, inr,
}
use computer_networks_lab.Libc.Text.{Bytes}
use computer_networks_lab.Chat.Conversation.Flow.{Carry}
use computer_networks_lab.GroupServer.Table.{Client, Send}
use computer_networks_lab.GroupServer.Threads.{
  unborn, receiving, Hearer, accepting, counting, System, update,
}
use computer_networks_lab.GroupServer.Threads.History.{Log}
use computer_networks_lab.GroupServer.Threads.Invariant.{update_all, update_self}
use computer_networks_lab.GroupServer.Room.{backwards}
use computer_networks_lab.GroupServer.Room.Uplink.Talking.{Prefix}
use computer_networks_lab.GroupServer.Room.Uplink.Hearing.{IsBorn, Serves, Says, next_id, Link}
use computer_networks_lab.GroupServer.Room.Uplink.Serving.{at_place}

module _ {sent : ℕ → List Bytes} {log : Log} {s : System} {taken : ℕ → List Bytes}
    (x : Link sent log s taken) where
  -- Main has created thread `k` for a new client.
  pub registered-Link :
      (k : ℕ) (h : Hearer) (clients : List Client) (greetings : List Send)
      → s.main_pc ≡ accepting
      → (s.hearers k).pc ≡ unborn
      → h.pc ≡ receiving
      → h.id ≡ s.server.client_id
      → ((i : ℕ) (c : Client)
          → get_elem? clients i ≡ some c
          → ((i ≢ s.server.client_id) × (get_elem? s.server.clients i ≡ some c))
            ⊎ ((h.id ≡ c.id) × (h.sockfd ≡ c.sockfd)))
      → Link sent log
          (record s {
            server = record { clients = clients; client_id = s.server.client_id };
            main_pc = counting;
            hearers = update s.hearers k h;
            greetings = greetings;
          })
          taken
  registered-Link k h clients greetings idle fresh born number placed =
      let nothing : taken k ≡ [] = at_place x k unborn fresh in
      let known : (j : ℕ) → IsBorn (s.hearers j).pc → (s.hearers j).id < s.server.client_id =
        λ j b. subst (λ m. (s.hearers j).id < next_id m s.server.client_id) idle (x.numbered j b) in
      let before : next_id s.main_pc s.server.client_id ≡ s.server.client_id =
        ap (λ m. next_id m s.server.client_id) idle in
      let unheard : log h.id ≡ [] = x.silent h.id (omega (arith, before, number)) in
      record {
        says_so =
            update_all (λ j y. Says y.pc (log y.id) y.buffer (taken j)) s.hearers k h
              (λ j ne. x.says_so j)
              (subst (λ p. Says p (log h.id) h.buffer (taken k)) (sym born)
                (subst (λ f. Carry (backwards f) (log h.id)) (sym nothing)
                  (subst (Carry []) (sym unheard) tt)));
        fetched =
            update_all (λ j y. Prefix (backwards (taken j)) (sent y.sockfd)) s.hearers k h
              (λ j ne. x.fetched j)
              (sent h.sockfd, ap (λ f. backwards f ++ sent h.sockfd) (sym nothing));
        alone =
            update_all
              (λ j y.
                (i : ℕ)
                → IsBorn y.pc
                → IsBorn (update s.hearers k h i).pc
                → y.id ≡ (update s.hearers k h i).id
                → j ≡ i)
              s.hearers k h
              (λ j ne.
                update_all
                  (λ i z. IsBorn (s.hearers j).pc → IsBorn z.pc → (s.hearers j).id ≡ z.id → j ≡ i)
                  s.hearers k h (λ i ne'. x.alone j i)
                  (λ bj bk e. absurd (omega (arith, known j bj, number, e))))
              (update_all (λ i z. IsBorn h.pc → IsBorn z.pc → h.id ≡ z.id → k ≡ i) s.hearers k h
                (λ i ne bh bi e. absurd (omega (arith, known i bi, number, e))) (λ bh bi e. refl));
        numbered =
            update_all (λ j y. IsBorn y.pc → y.id < s.server.client_id + 1) s.hearers k h
              (λ j ne b. omega (arith, known j b)) (λ b. omega (arith, number));
        silent = λ id past. x.silent id (omega (arith, before, past));
        seated = λ i c inside entry. elim (placed i c entry) [
          | inl (other, old) ↦
              let (j, serves) = x.seated i c (omega (arith, inside, other, before)) old in
              (
                j,
                update_all (λ m y. m ≡ j → Serves c y) s.hearers k h
                    (λ m ne e. subst (λ n. Serves c (s.hearers n)) (sym e) serves)
                    (λ e.
                      absurd (
                        subst IsBorn fresh (subst (λ n. IsBorn (s.hearers n).pc) (sym e) serves.0)))
                    j refl,
              )
          | inr own ↦ (
            k,
            subst (Serves c) (sym (update_self s.hearers k h))
                (subst IsBorn (sym born) tt, own.0, own.1),
          )
        ];
      }

  pub counted-Link :
      s.main_pc ≡ counting
      → Link sent log
          (record s {
            server = record s.server { client_id = s.server.client_id + 1 };
            main_pc = accepting;
          })
          taken
  counted-Link e = record {
    says_so = x.says_so;
    fetched = x.fetched;
    alone = x.alone;
    numbered =
        λ k b. subst (λ m. (s.hearers k).id < next_id m s.server.client_id) e (x.numbered k b);
    silent = λ id past. x.silent id (subst (λ m. next_id m s.server.client_id ≤ id) (sym e) past);
    seated = λ i c inside entry.
        x.seated i c (subst (λ m. i < next_id m s.server.client_id) (sym e) inside) entry;
  }
