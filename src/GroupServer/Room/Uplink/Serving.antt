-- ===== src/GroupServer/Room/Uplink/Serving.antt =====
-- Each step of a thread of the group chat server keeps what links it to its client.
use computer_networks_lab.Prelude.{
  ℕ, ◌≡◌, ◌≢◌, refl, sym, subst, ap, ◌∙◌, Option, some, List, [], ◌∷◌, ◌++◌, append_assoc, arith,
  some-eq,
}
use computer_networks_lab.Libc.Text.{Bytes, c_string, c_string-append, store}
use computer_networks_lab.Chat.Conversation.Flow.{Holds, Carry, Carry-append, recv_into-Holds}
use computer_networks_lab.GroupServer.Table.{Send}
use computer_networks_lab.GroupServer.Threads.{
  Pc, receiving, locking, shouting, unlocking, System, update, moved,
}
use computer_networks_lab.GroupServer.Threads.History.{Log, says}
use computer_networks_lab.GroupServer.Room.{backwards}
use computer_networks_lab.GroupServer.Room.Uplink.{taking}
use computer_networks_lab.GroupServer.Room.Uplink.Hearing.{IsBorn, Says, Link, replaced-Link}

module _ {sent : ℕ → List Bytes} {log : Log} {s : System} {taken : ℕ → List Bytes}
    (x : Link sent log s taken) where
  pub at_place :
      (k : ℕ) (pc : Pc)
      → (s.hearers k).pc ≡ pc
      → Says pc (log (s.hearers k).id) (s.hearers k).buffer (taken k)
  at_place k pc at =
      subst (λ p. Says p (log (s.hearers k).id) (s.hearers k).buffer (taken k)) at (x.says_so k)

  at_own : (k : ℕ) (bytes : Bytes) → taking taken k bytes k ≡ bytes ∷ taken k
  at_own k bytes = ground arith

  at_other : (k : ℕ) (bytes : Bytes) (j : ℕ) → j ≢ k → taking taken k bytes j ≡ taken j
  at_other k bytes j ne = ground arith

  says_own : (id : ℕ) (text : Bytes) → says log id text id ≡ log id ++ text ∷ []
  says_own id text = ground arith

  says_other : (id : ℕ) (text : Bytes) (j : ℕ) → j ≢ id → says log id text j ≡ log j
  says_other id text j ne = ground arith

  -- Thread `k` has received a frame.
  pub received-Link :
      (k : ℕ) (bytes line : Bytes) (rest : List Bytes)
      → (s.hearers k).pc ≡ receiving
      → Holds bytes line
      → sent (s.hearers k).sockfd ≡ backwards (taken k) ++ bytes ∷ rest
      → Link sent log
          (record s {
            hearers =
                update s.hearers k (record (s.hearers k) {
                  buffer = store bytes (s.hearers k).buffer;
                  pc = locking;
                });
          })
          (taking taken k bytes)
  received-Link k bytes line rest at holds next =
      replaced-Link x k _ log (taking taken k bytes) (subst IsBorn (sym at) tt) tt refl refl
        (λ id ne. refl) (at_other k bytes)
        (
          line,
          recv_into-Holds (s.hearers k).buffer bytes line holds,
          subst (λ f. Carry (backwards f) (log (s.hearers k).id ++ line ∷ []))
              (sym (at_own k bytes))
              (Carry-append (backwards (taken k)) (log (s.hearers k).id) bytes line
                (at_place k receiving at) holds),
        )
        (
          rest,
          next
              ∙ (sym (append_assoc (backwards (taken k)) (bytes ∷ []) rest)
                  ∙ ap (λ f. backwards f ++ rest) (sym (at_own k bytes))),
        )
        s.lock s.sends

  -- Thread `k` goes on, and has said no more than before.
  pub went_on-Link :
      (k : ℕ) (pc : Pc) (lock : Option ℕ) (sends : List Send)
      → IsBorn (s.hearers k).pc
      → IsBorn pc
      → Says pc (log (s.hearers k).id) (s.hearers k).buffer (taken k)
      → Link sent log (record (moved s k pc) { lock = lock; sends = sends }) taken
  went_on-Link k pc lock sends born still own =
      replaced-Link x k (record (s.hearers k) { pc = pc }) log taken born still refl refl
        (λ id ne. refl) (λ j ne. refl) own (x.fetched k) lock sends

  -- Thread `k` has taken the mutex, and read its text.
  pub locked-Link :
      (k : ℕ) (text msg : Bytes)
      → (s.hearers k).pc ≡ locking
      → c_string (s.hearers k).buffer ≡ some text
      → Link sent log (record (moved s k (shouting text 0 msg)) { lock = some k }) taken
  locked-Link k text msg at read =
      let (line, holds, carries) = at_place k locking at in
      let same : line ≡ text =
        some-eq
          (sym (ap c_string holds.begins ∙ c_string-append line holds.tail holds.text) ∙ read) in
      went_on-Link k (shouting text 0 msg) (some k) s.sends (subst IsBorn (sym at) tt) tt
        (subst (λ l. Carry (backwards (taken k)) (log (s.hearers k).id ++ l ∷ [])) same carries)

  -- The shout of thread `k` is made.
  pub ended-Link :
      (k i : ℕ) (text msg : Bytes) (sends : List Send)
      → (s.hearers k).pc ≡ shouting text i msg
      → Link sent
          (says log (s.hearers k).id text)
          (record (moved s k unlocking) { sends = sends })
          taken
  ended-Link k i text msg sends at =
      replaced-Link x k (record (s.hearers k) { pc = unlocking }) (says log (s.hearers k).id text)
        taken (subst IsBorn (sym at) tt) tt refl refl (says_other (s.hearers k).id text)
        (λ j ne. refl)
        (subst (λ l. Carry (backwards (taken k)) l) (sym (says_own (s.hearers k).id text))
          (at_place k (shouting text i msg) at))
        (x.fetched k) s.lock sends
