-- ===== src/GroupServer/Room/Uplink/Hearing.antt =====
-- What the threads of the group chat server have received, and what they have said of it.
use computer_networks_lab.Prelude.{
  ℕ, ◌+◌, ◌≤◌, ◌<◌, ◌≡◌, ◌≢◌, refl, sym, subst, ap, ◌∙◌, Option, some, List, [], ◌∷◌, ◌++◌,
  append_assoc, arith, get_elem?,
}
use computer_networks_lab.Libc.Text.{Bytes}
use computer_networks_lab.Chat.Conversation.Flow.{Holds, Carry}
use computer_networks_lab.GroupServer.Threads.{
  Pc, unborn, receiving, locking, shouting, unlocking, Hearer, MainPc, accepting, counting, System,
  update,
}
use computer_networks_lab.GroupServer.Table.{Client, Send}
use computer_networks_lab.GroupServer.Threads.Invariant.{update_all}
use computer_networks_lab.GroupServer.Threads.History.{Log}
use computer_networks_lab.GroupServer.Room.{backwards}
use computer_networks_lab.GroupServer.Room.Uplink.Talking.{Prefix}

abbrev pub IsBorn : Pc → Type 0
IsBorn unborn = ⊥
IsBorn receiving = Unit
IsBorn locking = Unit
IsBorn (shouting text i msg) = Unit
IsBorn unlocking = Unit

-- The frames that a thread has received hold what its client has said, and the line that the thread is
-- at.
abbrev pub Says : Pc → List Bytes → Bytes → List Bytes → Type 0
Says unborn said buffer frames = frames ≡ []
Says receiving said buffer frames = Carry (backwards frames) said
Says locking said buffer frames =
    (line : Bytes) × Holds buffer line × Carry (backwards frames) (said ++ line ∷ [])
Says (shouting text i msg) said buffer frames = Carry (backwards frames) (said ++ text ∷ [])
Says unlocking said buffer frames = Carry (backwards frames) said

-- The number that the next client gets.
abbrev pub next_id : MainPc → ℕ → ℕ
next_id accepting n = n
next_id counting n = n + 1

-- A thread that serves this client.
abbrev pub Serves : Client → Hearer → Type 0
Serves c h = IsBorn h.pc × (h.id ≡ c.id) × (h.sockfd ≡ c.sockfd)

-- `sent` has the frames that have been sent on each socket, the oldest first.
pub record Link (sent : ℕ → List Bytes) (log : Log) (s : System) (taken : ℕ → List Bytes)
    : Type 0 where
  pub says_so :
      (k : ℕ) → Says (s.hearers k).pc (log (s.hearers k).id) (s.hearers k).buffer (taken k)
  pub fetched : (k : ℕ) → Prefix (backwards (taken k)) (sent (s.hearers k).sockfd)
  pub alone :
      (j k : ℕ)
      → IsBorn (s.hearers j).pc
      → IsBorn (s.hearers k).pc
      → (s.hearers j).id ≡ (s.hearers k).id
      → j ≡ k
  pub numbered :
      (k : ℕ) → IsBorn (s.hearers k).pc → (s.hearers k).id < next_id s.main_pc s.server.client_id
  pub silent : (id : ℕ) → next_id s.main_pc s.server.client_id ≤ id → log id ≡ []
  pub seated :
      (i : ℕ) (c : Client)
      → i < next_id s.main_pc s.server.client_id
      → get_elem? s.server.clients i ≡ some c
      → (k : ℕ) × Serves c (s.hearers k)

-- Another client is not heard of in what this one says.
Says-other :
    (pc : Pc) {said said' : List Bytes} (buffer : Bytes) (frames : List Bytes)
    → (IsBorn pc → said' ≡ said)
    → Says pc said buffer frames
    → Says pc said' buffer frames
Says-other unborn buffer frames e x = x
Says-other receiving buffer frames e x = subst (λ l. Carry (backwards frames) l) (sym (e tt)) x
Says-other locking buffer frames e (line, holds, x) =
    (line, holds, subst (λ l. Carry (backwards frames) (l ++ line ∷ [])) (sym (e tt)) x)
Says-other (shouting text i msg) buffer frames e x =
    subst (λ l. Carry (backwards frames) (l ++ text ∷ [])) (sym (e tt)) x
Says-other unlocking buffer frames e x = subst (λ l. Carry (backwards frames) l) (sym (e tt)) x

-- More has been sent.
pub sent-Link :
    {sent sent' : ℕ → List Bytes} {log : Log} {s : System} {taken : ℕ → List Bytes}
    → ((fd : ℕ) → Prefix (sent fd) (sent' fd))
    → Link sent log s taken
    → Link sent' log s taken
sent-Link {s = s} {taken} more x = record {
  says_so = x.says_so;
  fetched = λ k.
      let (rest, e) = x.fetched k in
      let (new, e') = more (s.hearers k).sockfd in
      (rest ++ new, e' ∙ (ap (λ l. l ++ new) e ∙ append_assoc (backwards (taken k)) rest new));
  alone = x.alone;
  numbered = x.numbered;
  silent = x.silent;
  seated = x.seated;
}

-- The threads `f` where all but `k` are those of `s`.
module _ {sent : ℕ → List Bytes} {log : Log} {s : System} {taken : ℕ → List Bytes}
    (x : Link sent log s taken) where
  module _ (k : ℕ) (h : Hearer) (log' : Log) (taken' : ℕ → List Bytes)
      (born : IsBorn (s.hearers k).pc) (still : IsBorn h.pc) (same : h.id ≡ (s.hearers k).id)
      (socket : h.sockfd ≡ (s.hearers k).sockfd)
      (others_say : (id : ℕ) → id ≢ (s.hearers k).id → log' id ≡ log id)
      (others_take : (j : ℕ) → j ≢ k → taken' j ≡ taken j)
      (own : Says h.pc (log' h.id) h.buffer (taken' k))
      (fetches : Prefix (backwards (taken' k)) (sent h.sockfd)) where
    cases :
        (P : ℕ → Hearer → Type 0)
        → ((j : ℕ) → j ≢ k → P j (s.hearers j))
        → P k h
        → (j : ℕ) → P j (update s.hearers k h j)
    cases P = update_all P s.hearers k h

    -- Thread `k` has become `h`.
    pub replaced-Link :
        (lock : Option ℕ) (sends : List Send)
        → Link sent log'
            (record s { hearers = update s.hearers k h; lock = lock; sends = sends })
            taken'
    replaced-Link lock sends = record {
      says_so =
          cases (λ j y. Says y.pc (log' y.id) y.buffer (taken' j))
            (λ j ne.
              subst
                (λ frames.
                  Says (s.hearers j).pc (log' (s.hearers j).id) (s.hearers j).buffer frames)
                (sym (others_take j ne))
                (Says-other (s.hearers j).pc (s.hearers j).buffer (taken j)
                  (λ b. others_say (s.hearers j).id (λ e. ne (x.alone j k b born e)))
                  (x.says_so j)))
            own;
      fetched =
          cases (λ j y. Prefix (backwards (taken' j)) (sent y.sockfd))
            (λ j ne.
              subst (λ frames. Prefix (backwards frames) (sent (s.hearers j).sockfd))
                (sym (others_take j ne)) (x.fetched j))
            fetches;
      alone =
          cases
            (λ j y.
              (i : ℕ)
              → IsBorn y.pc
              → IsBorn (update s.hearers k h i).pc
              → y.id ≡ (update s.hearers k h i).id
              → j ≡ i)
            (λ j ne.
              cases (λ i z. IsBorn (s.hearers j).pc → IsBorn z.pc → (s.hearers j).id ≡ z.id → j ≡ i)
                (λ i ne'. x.alone j i) (λ bj bk e. x.alone j k bj born (e ∙ same)))
            (cases (λ i z. IsBorn h.pc → IsBorn z.pc → h.id ≡ z.id → k ≡ i)
              (λ i ne bh bi e. x.alone k i born bi (sym same ∙ e)) (λ bh bi e. refl));
      numbered =
          cases (λ j y. IsBorn y.pc → y.id < next_id s.main_pc s.server.client_id)
            (λ j ne. x.numbered j)
            (λ b.
              subst (λ i. i < next_id s.main_pc s.server.client_id) (sym same) (x.numbered k born));
      silent = λ id past.
          others_say id (λ e. absurd (omega (arith, past, x.numbered k born, e)))
          ∙ x.silent id past;
      seated = λ i c inside entry.
          let (j, serves) = x.seated i c inside entry in
          (
            j,
            cases (λ m y. m ≡ j → Serves c y)
                (λ m ne e. subst (λ n. Serves c (s.hearers n)) (sym e) serves)
                (λ e. (
                  still,
                  same ∙ (ap (λ n. (s.hearers n).id) e ∙ serves.1),
                  socket ∙ (ap (λ n. (s.hearers n).sockfd) e ∙ serves.2),
                ))
                j refl,
          );
    }
