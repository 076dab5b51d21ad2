-- ===== src/Examples/Threads.antt =====
-- A run of the group chat server: two clients join, and the first says "hi".
use computer_networks_lab.Prelude.{
  ◌+◌, ◌≤◌, List, ◌⊎◌, ℕ, ◌≡◌, refl, none, some, [], ◌∷◌, ◌++◌, arith, replicate, take,
}
use computer_networks_lab.Libc.Text.{Bytes, codes, c_string, store, memset, snprintf}
use computer_networks_lab.Libc.Decimal.{decimal}
use computer_networks_lab.GroupServer.Table.{max_num_client, init, accept_client}
use computer_networks_lab.GroupServer.Threads.{
  shouting, System, start, shout_round, Reach, here, next, main_accept, main_count, hear_recv,
  hear_lock, hear_shout, hear_unlock, accepting, locking, Step, faults, strlen_outside,
}
use computer_networks_lab.GroupServer.Threads.History.{Explained, Event, joins, shouts, members_of}
use computer_networks_lab.GroupServer.Threads.Release.{Releases, steps, Releases-steps}
use computer_networks_lab.GroupServer.Threads.Inbox.{heard, Distinct}
use computer_networks_lab.GroupServer.Threads.Atomic.{atomic_shouts, mutual_exclusion}
use computer_networks_lab.GroupServer.Threads.Faults.{faults_only}

abbrev pub junk : Bytes
junk = replicate 256 7

abbrev line : Bytes
line = codes "hi\n" ++ 0 ∷ []

-- Two clients have joined, and thread 0 is in the loop of its shout.
unfoldable pub busy :
    (s : System) × Reach start s × ((s.hearers 0).pc ≡ shouting (codes "hi\n") 0 (replicate 13 0))
unfolding start init accept_client c_string store snprintf decimal memset
busy = (
  _,
  next
      (next
        (next
          (next
            (next (next here (main_accept 0 5 junk junk _ _ _ refl refl refl refl))
              (main_count refl))
            (main_accept 1 6 junk junk _ _ _ refl refl refl refl))
          (main_count refl))
        (hear_recv 0 line (omega arith) refl))
      (hear_lock 0 (codes "hi\n") (replicate 13 9) refl refl refl refl (omega arith)),
  refl,
)

busy_locked : busy.0.lock ≡ some 0
unfolding busy
busy_locked = refl

Releases-steps_example :
    (t : System) × (r : Releases 0 busy.0 t) × (steps r.run ≤ busy.0.server.client_id + 2)
Releases-steps_example = Releases-steps 0 busy.1 busy_locked

-- The shout is made, and the mutex free again.
unfoldable pub spoken :
    (s : System) × Reach start s
    × (s.lock ≡ none)
    × (s.sends ≡ record { to = 6; bytes = codes "CLIENT0: hi\n" ++ 0 ∷ [] } ∷ [])
unfolding busy shout_round start init accept_client c_string store snprintf decimal memset
spoken = (
  _,
  next
      (next
        (next (next busy.1 (hear_shout 0 0 _ _ _ _ refl refl)) (hear_shout 0 1 _ _ _ _ refl refl))
        (hear_shout 0 2 _ _ _ _ refl refl))
      (hear_unlock 0 refl),
  refl,
  refl,
)

atomic_shouts_example :
    Explained (take spoken.0.server.client_id spoken.0.server.clients) spoken.0.sends
atomic_shouts_example = atomic_shouts spoken.1 spoken.2

pub spoken-Distinct : Distinct (take spoken.0.server.client_id spoken.0.server.clients)
unfolding spoken busy start init accept_client
spoken-Distinct = (refl, (refl, tt))

-- Client 1 hears the one shout of client 0, who joined first.
abbrev joined : List Event
joined = joins (record { id = 1; sockfd = 6 }) ∷ joins (record { id = 0; sockfd = 5 }) ∷ []

heard_once :
    (heard (record { id = 1; sockfd = 6 }) (shouts 0 (codes "hi\n") ∷ joined)
      ≡ (codes "CLIENT0: hi\n" ++ 0 ∷ []) ∷ [])
    × (heard (record { id = 0; sockfd = 5 }) (shouts 0 (codes "hi\n") ∷ joined) ≡ [])
unfolding heard members_of decimal
heard_once = (refl, refl)

mutual_exclusion_example : (◌≡◌ {A = ℕ} 0 0) × (busy.0.lock ≡ some 0)
unfolding busy
mutual_exclusion_example = mutual_exclusion 0 0 busy.1 tt tt

-- A message of 256 bytes without a NUL.
endless : (s : System) × Reach start s × Step s faults
unfolding start init accept_client c_string store snprintf decimal
endless = (
  _,
  next (next (next here (main_accept 0 5 junk junk _ _ _ refl refl refl refl)) (main_count refl))
      (hear_recv 0 junk (omega arith) refl),
  strlen_outside 0 refl refl refl,
)

faults_only_example :
    ((endless.0.main_pc ≡ accepting) × (endless.0.server.client_id ≡ max_num_client))
    ⊎ ((k : ℕ) × ((endless.0.hearers k).pc ≡ locking)
        × (c_string (endless.0.hearers k).buffer ≡ none))
faults_only_example = faults_only endless.1 endless.2
