-- ===== src/GroupServer/Room/Uplink/Typed.antt =====
-- From what is typed at one client of the group chat to what is printed at the others.
use mathlib.Core.List.{Memᴰ}
use computer_networks_lab.Prelude.{
  ℕ, zero, suc, ◌<◌, get_elem?, ◌≡◌, refl, sym, subst, ap, ◌∙◌, none, some, List, [], ◌∷◌, ◌++◌,
  arith, append_assoc, append-nil, take,
}
use computer_networks_lab.Libc.Text.{Bytes, IsText}
use computer_networks_lab.Chat.Conversation.Flow.{Carry, joined}
use computer_networks_lab.GroupServer.Table.{Client}
use computer_networks_lab.GroupServer.Threads.{
  MainPc, accepting, counting, Pc, unborn, locking, shouting, receiving, unlocking,
}
use computer_networks_lab.GroupServer.Threads.History.{Event, members_of, texts_of}
use computer_networks_lab.GroupServer.Threads.Saying.{after_run, silence}
use computer_networks_lab.GroupServer.Threads.Atomic.{Reach-Chronicle}
use computer_networks_lab.GroupServer.Threads.Inbox.{heard, Distinct, history_hears}
use computer_networks_lab.GroupServer.Room.{backwards}
use computer_networks_lab.GroupServer.Room.Everyone.{Prints, Reads-Prints}
use computer_networks_lab.GroupServer.Room.Uplink.{Session, Meets, first_session}
use computer_networks_lab.GroupServer.Room.Uplink.Talking.{Prefix, Carry-prefix}
use computer_networks_lab.GroupServer.Room.Uplink.Hearing.{IsBorn, next_id, Says}
use computer_networks_lab.GroupServer.Room.Uplink.Sessions.{
  SessionInv, first_session-SessionInv, Meets-SessionInv,
}

-- A member of the table has an entry.
Memᴰ-get_elem? :
    (n : ℕ) (cs : List Client) (c : Client)
    → Memᴰ c (take n cs)
    → (i : ℕ) × (i < n) × (get_elem? cs i ≡ some c)
Memᴰ-get_elem? zero cs c m = elim m [ ]
Memᴰ-get_elem? (suc n) [] c m = elim m [ ]
Memᴰ-get_elem? (suc n) (x ∷ cs) c (Memᴰ.head e) = (0, omega arith, ap some (sym e))
Memᴰ-get_elem? (suc n) (x ∷ cs) c (Memᴰ.tail m) =
    let (i, inside, e) = Memᴰ-get_elem? n cs c m in (suc i, omega (arith, inside), e)

next_id-le : (pc : MainPc) (n i : ℕ) → i < n → i < next_id pc n
next_id-le accepting n i h = h
next_id-le counting n i h = omega (arith, h)

joined_prefix : (xs ys : List Bytes) → joined (xs ++ ys) ≡ joined xs ++ joined ys
joined_prefix [] ys = refl
joined_prefix (x ∷ xs) ys =
    ap (◌++◌ x) (joined_prefix xs ys) ∙ sym (append_assoc x (joined xs) (joined ys))

joined_parts :
    (xs ys zs : List Bytes) (b : Bytes)
    → joined ((xs ++ ys) ++ zs) ++ b ≡ joined xs ++ (joined ys ++ (joined zs ++ b))
joined_parts xs ys zs b =
    ap (λ l. l ++ b) (joined_prefix (xs ++ ys) zs ∙ ap (λ l. l ++ joined zs) (joined_prefix xs ys))
    ∙ (append_assoc (joined xs ++ joined ys) (joined zs) b
        ∙ append_assoc (joined xs) (joined ys) (joined zs ++ b))

-- What a thread has said is the beginning of what the frames that it has received hold.
Says-Prefix :
    (pc : Pc) (said : List Bytes) (buffer : Bytes) (frames : List Bytes)
    → IsBorn pc
    → Says pc said buffer frames
    → (ls : List Bytes) × Prefix said ls × Carry (backwards frames) ls
Says-Prefix unborn said buffer frames b x = absurd b
Says-Prefix receiving said buffer frames b x = (said, ([], sym (append-nil said)), x)
Says-Prefix locking said buffer frames b (line, holds, x) =
    (said ++ line ∷ [], (line ∷ [], refl), x)
Says-Prefix (shouting text i msg) said buffer frames b x = (said ++ text ∷ [], (text ∷ [], refl), x)
Says-Prefix unlocking said buffer frames b x = (said, ([], sym (append-nil said)), x)

module _ (input : ℕ → Bytes) where
  SessionInv-begins :
      {x : Session} (inv : SessionInv input x) (k : ℕ)
      → IsBorn (x.room.system.hearers k).pc
      → (rest : Bytes) × (input (x.room.system.hearers k).sockfd
          ≡ joined (after_run silence inv.served (x.room.system.hearers k).id) ++ rest)
  SessionInv-begins {x} inv k born =
      let h = x.room.system.hearers k in
      let said = after_run silence inv.served h.id in
      let t = inv.spoke h.sockfd in
      let (ls, (now, e), carries) =
        Says-Prefix h.pc said h.buffer (x.taken k) born (inv.link.says_so k) in
      let (later, e') = inv.link.fetched k in
      let (more, e'') =
        Carry-prefix (backwards (x.taken k)) later ls t.lines carries
          (subst (λ fs. Carry fs t.lines) e' t.carries) in
      (
        joined now ++ (joined more ++ (t.at_mouth ++ (x.room.chats h.sockfd).input)),
        t.whole
            ∙ (ap (λ l. joined l ++ (t.at_mouth ++ (x.room.chats h.sockfd).input))
                  (e'' ∙ ap (λ l. l ++ more) e)
                ∙ joined_parts said now more (t.at_mouth ++ (x.room.chats h.sockfd).input)),
      )

  -- What a client has been heard to say is the beginning of what it has typed.
  abbrev pub Begins : Client → List Event → Type 0
  Begins c h = (rest : Bytes) × (input c.sockfd ≡ joined (texts_of c.id h) ++ rest)

  SessionInv-Begins :
      {x : Session} (inv : SessionInv input x) (c : Client) (h : List Event)
      → ((id : ℕ) → texts_of id h ≡ after_run silence inv.served id)
      → Memᴰ c (take x.room.system.server.client_id x.room.system.server.clients)
      → Begins c h
  SessionInv-Begins {x} inv c h spoken m =
      let s = x.room.system in
      let (i, inside, entry) = Memᴰ-get_elem? s.server.client_id s.server.clients c m in
      let (k, (born, number, socket)) =
        inv.link.seated i c (next_id-le s.main_pc s.server.client_id i inside) entry in
      let (rest, e) = SessionInv-begins inv k born in
      (
        rest,
        ap input (sym socket)
            ∙ (e
                ∙ ap (λ l. joined l ++ rest)
                    (ap (after_run silence inv.served) number ∙ sym (spoken c.id))),
      )

  -- In every state of the group chat in which the mutex is free, and if the sockets of the server
  -- differ, there is one history of joins and shouts such that, for each member, what has been shouted
  -- with its number is, joined, the beginning of what has been typed at it, and what it has printed,
  -- after at most one print of its greeting, is, in order and each with its NUL, the beginning of the
  -- shouts of others since it joined. The inputs hold no NUL and do not end, no call fails, and each
  -- frame arrives whole in one read.
  pub typed_reaches_all :
      (hear_buffer talk_buffer : ℕ → Bytes) {x : Session}
      → ((fd : ℕ) → IsText (input fd))
      → Meets (first_session hear_buffer talk_buffer input) x
      → x.room.system.lock ≡ none
      → Distinct (take x.room.system.server.client_id x.room.system.server.clients)
      → (h : List Event) × (members_of h
          ≡ take x.room.system.server.client_id x.room.system.server.clients)
        × ((c : Client)
            → Memᴰ c (take x.room.system.server.client_id x.room.system.server.clients)
            → Begins c h × Prints (heard c h) (x.room.chats c.sockfd))
  typed_reaches_all hear_buffer talk_buffer {x} text r free apart =
      let inv =
        Meets-SessionInv input (first_session-SessionInv input hear_buffer talk_buffer text) r in
      let y = Reach-Chronicle inv.served free in
      (
        y.history,
        y.joined,
        λ c m. (
          SessionInv-Begins inv c y.history y.spoken m,
          subst (λ sent. Prints sent (x.room.chats c.sockfd))
              (history_hears c y.history y.joined y.sent apart m)
              (Reads-Prints (inv.reading.reading c.sockfd)),
        ),
      )
