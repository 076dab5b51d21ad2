-- ===== src/GroupServer/Threads/Faults.antt =====
-- Which accesses of the group chat server can be outside their array.
use native.Mathlib.Decide.{dec_lt}
use computer_networks_lab.Prelude.{
  ℕ, ◌≡◌, ◌⊎◌, ◌∙◌, subst, none, some, List, arith, length, inl, inr, Bool-cases, ltb, ltb→lt,
}
use computer_networks_lab.Libc.Text.{Bytes, c_string, length-store}
use computer_networks_lab.GroupServer.Table.{Send, max_num_client, buffer_len}
use computer_networks_lab.GroupServer.Registry.{accept_client_lem}
use computer_networks_lab.GroupServer.Threads.{
  Pc, unborn, receiving, locking, shouting, unlocking, System, accepting, start, shout_round, Step,
  goes, faults, Reach, here, next, main_accept, main_count, hear_recv, hear_lock, hear_shout,
  hear_unlock, accept_outside, recv_outside, strlen_outside, memset_outside, shout_outside,
}
use computer_networks_lab.GroupServer.Threads.History.{Log}
use computer_networks_lab.GroupServer.Threads.Invariant.{
  Inv, update_all, shout_round-inside, shout_round-outside,
}
use computer_networks_lab.GroupServer.Threads.Shouting.{shouting-Ready}
use computer_networks_lab.GroupServer.Threads.Atomic.{start-Inv, Reach-Inv}

shout_within :
    {log : Log} {s : System} (k i : ℕ) (text msg : Bytes)
    → Inv log s
    → (s.hearers k).pc ≡ shouting text i msg
    → (r : Pc × List Send) × (shout_round s.server (s.hearers k).id text i msg ≡ some r)
shout_within {s = s} k i text msg inv at = elim (Bool-cases (ltb i s.server.client_id)) [
  | inl inside ↦
      let (msg', c, eq, entry, size) =
        shout_round-inside s.server (s.hearers k).id i text msg inv.table (inv.small k)
          (ltb→lt _ _ inside) (shouting-Ready inv k i text msg at).1 in
      (_, eq)
  | inr outside ↦ (_, shout_round-outside s.server (s.hearers k).id i text msg (ground arith))
]

-- The buffer of a thread that there is has all its bytes.
abbrev IsWhole : Pc → Bytes → Type 0
IsWhole unborn buffer = Unit
IsWhole receiving buffer = length buffer ≡ buffer_len
IsWhole locking buffer = length buffer ≡ buffer_len
IsWhole (shouting text i msg) buffer = length buffer ≡ buffer_len
IsWhole unlocking buffer = length buffer ≡ buffer_len

after_shout : (pc : Pc) (buffer : Bytes) → length buffer ≡ buffer_len → IsWhole pc buffer
after_shout unborn buffer h = tt
after_shout receiving buffer h = h
after_shout locking buffer h = h
after_shout (shouting text i msg) buffer h = h
after_shout unlocking buffer h = h

Step-IsWhole :
    {s t : System}
    → ((j : ℕ) → IsWhole (s.hearers j).pc (s.hearers j).buffer)
    → Step s (goes t)
    → (j : ℕ) → IsWhole (t.hearers j).pc (t.hearers j).buffer
Step-IsWhole {s} h (main_accept k newsockfd auth buffer t greeting client idle fresh fills e) =
    update_all (λ j y. IsWhole y.pc y.buffer) s.hearers k _ (λ j ne. h j) fills
Step-IsWhole h (main_count e) = h
Step-IsWhole {s} h (hear_recv k bytes fits at) =
    update_all (λ j y. IsWhole y.pc y.buffer) s.hearers k _ (λ j ne. h j)
      (length-store bytes (s.hearers k).buffer fits.1
        ∙ subst (λ pc. IsWhole pc (s.hearers k).buffer) at (h k))
Step-IsWhole {s} h (hear_lock k text msg at free read size room) =
    update_all (λ j y. IsWhole y.pc y.buffer) s.hearers k _ (λ j ne. h j)
      (subst (λ pc. IsWhole pc (s.hearers k).buffer) at (h k))
Step-IsWhole {s} h (hear_shout k i text msg pc out at e) =
    update_all (λ j y. IsWhole y.pc y.buffer) s.hearers k _ (λ j ne. h j)
      (after_shout pc (s.hearers k).buffer
        (subst (λ pc'. IsWhole pc' (s.hearers k).buffer) at (h k)))
Step-IsWhole {s} h (hear_unlock k at) =
    update_all (λ j y. IsWhole y.pc y.buffer) s.hearers k _ (λ j ne. h j)
      (subst (λ pc. IsWhole pc (s.hearers k).buffer) at (h k))

Reach-IsWhole :
    {s : System} → Reach start s → (j : ℕ) → IsWhole (s.hearers j).pc (s.hearers j).buffer
unfolding start
Reach-IsWhole here = λ j. tt
Reach-IsWhole (next r st) = Step-IsWhole (Reach-IsWhole r) st

-- In every state that the process can come to, of the accesses of main to the table, of recv and strlen
-- to the buffer of a thread, and of the loop of shout to the table and to the memory of `msg`, only two
-- can be outside: an entry of main when the table has ten clients, and strlen of a buffer without a
-- NUL.
pub faults_only :
    {s : System}
    → Reach start s
    → Step s faults
    → ((s.main_pc ≡ accepting) × (s.server.client_id ≡ max_num_client))
      ⊎ ((k : ℕ) × ((s.hearers k).pc ≡ locking) × (c_string (s.hearers k).buffer ≡ none))
faults_only {s} r (accept_outside newsockfd auth idle e) =
    let inv = Reach-Inv start-Inv r in
    elim (dec_lt s.server.client_id max_num_client) [
      | yes room ↦ absurd (cc (e, (accept_client_lem s.server newsockfd auth inv.table room).0))
      | no full ↦ inl (idle, omega (arith, inv.table.room))
    ]
faults_only {s} r (recv_outside k bytes fits past at) =
    let whole : length (s.hearers k).buffer ≡ buffer_len =
      subst (λ pc. IsWhole pc (s.hearers k).buffer) at (Reach-IsWhole r k) in
    absurd (omega (arith, fits, past, whole))
faults_only r (strlen_outside k at free e) = inr (k, at, e)
faults_only r (memset_outside k text msg at free read size past) =
    absurd (omega (arith, size, past))
faults_only r (shout_outside k i text msg at e) =
    absurd (cc (e, (shout_within k i text msg (Reach-Inv start-Inv r) at).1))
