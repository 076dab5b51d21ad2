-- ===== src/GroupServer/Main/Joins.antt =====
-- How clients join: main of the group chat server within its table and beyond.
use native.Mathlib.Numerals.{add-one}
use computer_networks_lab.Prelude.{
  ℕ, zero, suc, ◌+◌, ◌≤◌, ◌<◌, ◌≡◌, refl, ◌∙◌, ap, sym, List, [], ◌∷◌, ◌++◌, arith, set, subst,
  take, map,
}
use native.Mathlib.Decide.{dec_lt}
use computer_networks_lab.Libc.Text.{Bytes, codes}
use computer_networks_lab.Libc.Decimal.{decimal}
use computer_networks_lab.Os.{Call, stream, result, Kernel, done, faulted}
use computer_networks_lab.Lab.FailStop.{
  FailStop, >>=-FailStop, return-FailStop, tell-FailStop, checked-FailStop, need->>=-FailStop,
}
use computer_networks_lab.Beej.Opening.{service, bind_server, open_server, accept_next, connected}
use computer_networks_lab.Beej.Exchange.{open_server-FailStop, accept_next-FailStop}
use computer_networks_lab.GroupServer.Table.{max_num_client, Client, Server, init}
use computer_networks_lab.GroupServer.Threads.History.{map_append}
use computer_networks_lab.GroupServer.Registry.{
  Inv, init-Inv, accept_client_lem, accept_client_full,
}
use computer_networks_lab.GroupServer.Main.{accept_rounds, group_server}
use computer_networks_lab.GroupServer.Main.Welcome.{welcome, socket_of, given, Welcomes, take-set}

-- The call of main that greets a client, and the one that creates its thread.
abbrev greets : Server → ℕ → Call
greets s newsockfd =
    Call.send newsockfd (codes "You are Client" ++ decimal s.client_id ++ codes "\n")

abbrev creates : Client → Call
creates c = Call.pthread_create c.id c.sockfd

-- The table with one more client.
abbrev joined : Server → ℕ → Server
joined s newsockfd = record {
  clients = set s.clients s.client_id (record { id = s.client_id; sockfd = newsockfd });
  client_id = s.client_id + 1;
}

-- Every call of main succeeds.
pub record Admits (kernel : Kernel) (fd : ℕ) (address : Bytes) : Type 0 where
  pub resolves :
      (host port : Bytes) (calls : List Call)
      → kernel (Call.getaddrinfo host port ∷ calls) ≡ result 0 address
  pub opens : (calls : List Call) → kernel (Call.socket stream ∷ calls) ≡ result fd []
  pub sets : (calls : List Call) → kernel (Call.setsockopt fd ∷ calls) ≡ result 0 []
  pub binds : (calls : List Call) → kernel (Call.bind_to fd address ∷ calls) ≡ result 0 []
  pub makes : (calls : List Call) → kernel (Call.pthread_mutex_init ∷ calls) ≡ result 0 []
  pub accepts :
      (calls : List Call)
      → (newsockfd : ℕ) × (peer : Bytes) × (kernel (Call.accept fd ∷ calls) ≡ result newsockfd peer)

module _ (kernel : Kernel) (gai_strerror : Bytes) (ntop : Bytes → Bytes) (auth : ℕ → Bytes) where
  accept_rounds-FailStop :
      (n fd : ℕ) (s : Server)
      → Inv s
      → s.client_id + n ≤ max_num_client
      → FailStop kernel 1 (accept_rounds kernel gai_strerror ntop auth n fd s)
  unfolding accept_rounds
  accept_rounds-FailStop zero fd s inv room = return-FailStop s
  accept_rounds-FailStop (suc n) fd s inv room =
      >>=-FailStop (accept_next-FailStop kernel gai_strerror ntop fd) λ newsockfd.
        let (e, inv') = accept_client_lem s newsockfd (auth s.client_id) inv (omega arith) in
        need->>=-FailStop _ e (
          >>=-FailStop (tell-FailStop (greets s newsockfd) refl) λ greeted.
            >>=-FailStop
              (tell-FailStop (creates (record { id = s.client_id; sockfd = newsockfd })) refl)
              λ created. accept_rounds-FailStop n fd (joined s newsockfd) inv' (omega arith))

  -- While it accepts at most ten connections, main of the group chat server stops at the first failing
  -- call that it checks, reports it at once and exits with status 1, and it never leaves its table of
  -- clients, whatever the kernel answers.
  pub group_server-FailStop :
      (n : ℕ) (argv : List Bytes)
      → n ≤ max_num_client
      → FailStop kernel 1 (group_server kernel gai_strerror ntop auth n argv)
  unfolding group_server init
  group_server-FailStop n argv room =
      >>=-FailStop (open_server-FailStop kernel gai_strerror ntop argv) λ fd.
        >>=-FailStop (checked-FailStop (codes "mutex") Call.pthread_mutex_init)
          λ made. accept_rounds-FailStop n fd init init-Inv (omega arith)

  module _ {fd : ℕ} {address : Bytes} (k : Admits kernel fd address) where
    -- What main calls before its loop.
    abbrev opening : List Bytes → List Call
    opening argv =
        Call.pthread_mutex_init
        ∷ Call.printf (codes "Waiting for connections...\n")
        ∷ Call.listen fd 5
        ∷ Call.bind_to fd address
        ∷ Call.setsockopt fd
        ∷ Call.socket stream
        ∷ Call.getaddrinfo [] (service argv)
        ∷ []

    one_round :
        (n : ℕ) (s : Server) (calls : List Call)
        → Inv s
        → s.client_id < max_num_client
        → (newsockfd : ℕ) × (peer : Bytes) × (accept_rounds kernel gai_strerror ntop auth
              (suc n)
              fd
              s
              calls
            ≡ accept_rounds kernel gai_strerror ntop auth n fd (joined s newsockfd) (
                creates (record { id = s.client_id; sockfd = newsockfd })
                ∷ greets s newsockfd
                ∷ connected kernel gai_strerror ntop peer
                ∷ Call.accept fd
                ∷ calls))
          × Inv (joined s newsockfd)
          × (kernel (Call.accept fd ∷ calls) ≡ result newsockfd peer)
    unfolding accept_rounds accept_next
    one_round n s calls inv room =
        let (newsockfd, peer, answer) = k.accepts calls in
        let (e, inv') = accept_client_lem s newsockfd (auth s.client_id) inv room in
        (newsockfd, peer, rw answer (rw e refl), inv', answer)

    overrun :
        (n : ℕ) (s : Server) (calls : List Call)
        → Inv s
        → max_num_client < s.client_id + n
        → (accept_rounds kernel gai_strerror ntop auth n fd s calls).1 ≡ faulted
    unfolding accept_rounds accept_next
    overrun zero s calls inv more = absurd (omega (arith, inv.room))
    overrun (suc n) s calls inv more = elim (dec_lt s.client_id max_num_client) [
      | yes room ↦
          let (newsockfd, peer, e, inv', answer) = one_round n s calls inv room in
          ap (λ r. r.1) e ∙ overrun n (joined s newsockfd) _ inv' (omega arith)
      | no full ↦
          let (newsockfd, peer, answer) = k.accepts calls in
          rw answer (
            rw (accept_client_full s newsockfd (auth s.client_id) inv (omega (arith, inv.room)))
              refl)
    ]

    one_more :
        (s : Server) (newsockfd : ℕ) (peer : Bytes) (calls : List Call)
        → Inv s
        → s.client_id < max_num_client
        → kernel (Call.accept fd ∷ calls) ≡ result newsockfd peer
        → Welcomes kernel calls (take s.client_id s.clients)
        → Welcomes kernel
            (creates (record { id = s.client_id; sockfd = newsockfd })
              ∷ greets s newsockfd
              ∷ connected kernel gai_strerror ntop peer
              ∷ Call.accept fd
              ∷ calls)
            (take (s.client_id + 1) (joined s newsockfd).clients)
    one_more s newsockfd peer calls inv room answer w =
        let c : Client = record { id = s.client_id; sockfd = newsockfd } in
        let grown : take (s.client_id + 1) (set s.clients s.client_id c)
            ≡ take s.client_id s.clients ++ c ∷ [] =
          rw add-one (take-set s.clients s.client_id c (omega (arith, room, inv.size))) in
        record {
          sockets =
              ap (λ a. given kernel calls ++ socket_of a) answer
              ∙ (ap (λ l. l ++ newsockfd ∷ []) w.sockets
                  ∙ (sym (map_append (λ x. x.sockfd) (take s.client_id s.clients) (c ∷ []))
                      ∙ ap (map (λ x. x.sockfd)) (sym grown)));
          greetings =
              ap (λ l. l ++ welcome c ∷ []) w.greetings
              ∙ (sym (map_append welcome (take s.client_id s.clients) (c ∷ []))
                  ∙ ap (map welcome) (sym grown));
          threads = ap (λ l. l ++ c ∷ []) w.threads ∙ sym grown;
        }

    -- All rounds of a table with room for them.
    rounds :
        (n : ℕ) (s : Server) (calls : List Call)
        → Inv s
        → s.client_id + n ≤ max_num_client
        → Welcomes kernel calls (take s.client_id s.clients)
        → (calls' : List Call) × (t : Server) × (accept_rounds kernel gai_strerror ntop auth n fd s
              calls
            ≡ (calls', done t))
          × (t.client_id ≡ s.client_id + n)
          × Welcomes kernel calls' (take t.client_id t.clients)
          × Inv t
    unfolding accept_rounds
    rounds zero s calls inv room all = (calls, s, refl, omega arith, all, inv)
    rounds (suc n) s calls inv room all =
        let (newsockfd, peer, e, inv', answer) = one_round n s calls inv (omega arith) in
        let (calls', t, e', count, all', inv'') =
          rounds n (joined s newsockfd) _ inv' (omega arith)
            (one_more s newsockfd peer calls inv (omega arith) answer all) in
        (calls', t, e ∙ e', omega (arith, count), all', inv'')

    -- If no call fails, main of the group chat server accepts as many connections as it has rounds, up
    -- to ten: its table has the sockets that the kernel gave to accept, in their order and numbered from
    -- 0, and each client has been greeted on its own socket with its number and has one thread for its
    -- entry.
    pub group_server_joins :
        (n : ℕ) (argv : List Bytes)
        → n ≤ max_num_client
        → (calls : List Call) × (t : Server) × (group_server kernel gai_strerror ntop auth n argv []
            ≡ (calls, done t))
          × (t.client_id ≡ n)
          × Welcomes kernel calls (take n t.clients)
          × Inv t
    unfolding group_server open_server bind_server init
    group_server_joins n argv room =
        let (calls, t, e, count, all, inv) =
          rounds n init (opening argv) init-Inv (omega arith)
            (record { sockets = refl; greetings = refl; threads = refl }) in
        (
          calls,
          t,
          rw (k.resolves, k.opens, k.sets, k.binds, k.makes) e,
          omega (arith, count),
          subst (λ m. Welcomes kernel calls (take m t.clients)) (omega (arith, count)) all,
          inv,
        )

    -- If no call fails, main of the group chat server leaves its table of clients at the eleventh
    -- connection.
    pub group_server_overruns :
        (n : ℕ) (argv : List Bytes)
        → max_num_client < n
        → (group_server kernel gai_strerror ntop auth n argv []).1 ≡ faulted
    unfolding group_server open_server bind_server init
    group_server_overruns n argv more =
        rw (k.resolves, k.opens, k.sets, k.binds, k.makes)
          (overrun n init (opening argv) init-Inv (omega arith))
