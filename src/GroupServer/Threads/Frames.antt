-- ===== src/GroupServer/Threads/Frames.antt =====
-- What the group chat server sends is a text and its NUL, in every state of its threads.
use computer_networks_lab.Prelude.{
  ℕ, ◌≡◌, refl, sym, ◌∙◌, subst, some, List, [], ◌∷◌, ◌++◌, All, arith, append-nil, some-eq, inl,
  inr, Bool-cases, ◌==◌, ltb, ltb→lt,
}
use computer_networks_lab.Libc.Text.{Bytes, IsText, c_string-IsText}
use computer_networks_lab.GroupServer.Table.{Client, Send, message}
use computer_networks_lab.GroupServer.Broadcast.{others}
use computer_networks_lab.GroupServer.Delivery.{message-IsText}
use computer_networks_lab.GroupServer.Threads.{
  Pc, unborn, shouting, System, start, shout_round, goes, Step, Reach, here, next, main_accept,
  main_count, hear_recv, hear_lock, hear_shout, hear_unlock,
}
use computer_networks_lab.GroupServer.Threads.History.{broadcast, Log}
use computer_networks_lab.GroupServer.Threads.Invariant.{
  Inv, update_all, shout_round-inside, shout_round-outside,
}
use computer_networks_lab.GroupServer.Threads.Shouting.{shouting-Ready}
use computer_networks_lab.GroupServer.Threads.Atomic.{start-Inv, Reach-Inv}

-- A text with its NUL.
abbrev pub IsFrame : Bytes → Type 0
IsFrame bytes = (text : Bytes) × IsText text × (bytes ≡ text ++ 0 ∷ [])

abbrev pub Frames : List Send → Type 0
Frames = All (λ x. IsFrame x.bytes)

-- The text of a shout holds no NUL.
abbrev Speaks : Pc → Type 0
Speaks unborn = Unit
Speaks (shouting text i msg) = IsText text
Speaks pc = Unit

broadcast-Frames :
    (id : ℕ) (text : Bytes) (ms : List Client) → IsText text → Frames (broadcast id text ms)
unfolding others
broadcast-Frames id text [] h = tt
broadcast-Frames id text (c ∷ ms) h = elim (Bool-cases (c.id == id)) [
  | inl own ↦ rw own (broadcast-Frames id text ms h)
  | inr other ↦
      rw other ((message id text, message-IsText id text h, refl), broadcast-Frames id text ms h)
]

-- What a step of the process adds to what has been sent.
pub record Grows (s t : System) : Type 0 where
  pub out : List Send
  pub more : t.sends ≡ s.sends ++ out
  pub frames : Frames out

silent : {s t : System} → t.sends ≡ s.sends → Grows s t
silent {s} e = record { out = []; more = e ∙ sym (append-nil s.sends); frames = tt }

shout_round-Frames :
    {log : Log} {s : System} (k i : ℕ) (text msg : Bytes) (pc : Pc) (out : List Send)
    → Inv log s
    → (s.hearers k).pc ≡ shouting text i msg
    → IsText text
    → shout_round s.server (s.hearers k).id text i msg ≡ some (pc, out)
    → Speaks pc × Frames out
shout_round-Frames {s = s} k i text msg pc out inv at h e =
    elim (Bool-cases (ltb i s.server.client_id)) [
      | inl inside ↦
          let (msg', c, eq, entry, size) =
            shout_round-inside s.server (s.hearers k).id i text msg inv.table (inv.small k)
              (ltb→lt _ _ inside) (shouting-Ready inv k i text msg at).1 in
          subst (λ r. Speaks r.0 × Frames r.1) (some-eq (sym eq ∙ e))
            (h, broadcast-Frames (s.hearers k).id text (c ∷ []) h)
      | inr outside ↦
          subst (λ r. Speaks r.0 × Frames r.1)
            (some-eq
              (sym (shout_round-outside s.server (s.hearers k).id i text msg (ground arith)) ∙ e))
            (tt, tt)
    ]

Step-Speaks :
    {log : Log} {s t : System}
    → Inv log s
    → ((k : ℕ) → Speaks (s.hearers k).pc)
    → Step s (goes t)
    → ((k : ℕ) → Speaks (t.hearers k).pc) × Grows s t
Step-Speaks {s = s} inv h
      (main_accept k newsockfd auth buffer t greeting client idle fresh fills e) =
    (update_all (λ j x. Speaks x.pc) s.hearers k _ (λ j ne. h j) tt, silent refl)
Step-Speaks inv h (main_count e) = (h, silent refl)
Step-Speaks {s = s} inv h (hear_recv k bytes fits at) =
    (update_all (λ j x. Speaks x.pc) s.hearers k _ (λ j ne. h j) tt, silent refl)
Step-Speaks {s = s} inv h (hear_lock k text msg at free read size room) = (
  update_all (λ j x. Speaks x.pc) s.hearers k _ (λ j ne. h j)
      (c_string-IsText (s.hearers k).buffer read),
  silent refl,
)
Step-Speaks {s = s} inv h (hear_shout k i text msg pc out at e) =
    let (speaks, frames) =
      shout_round-Frames k i text msg pc out inv at (subst Speaks at (h k)) e in
    (
      update_all (λ j x. Speaks x.pc) s.hearers k _ (λ j ne. h j) speaks,
      record { out = out; more = refl; frames = frames },
    )
Step-Speaks {s = s} inv h (hear_unlock k at) =
    (update_all (λ j x. Speaks x.pc) s.hearers k _ (λ j ne. h j) tt, silent refl)

Reach-Speaks : {s : System} → Reach start s → (k : ℕ) → Speaks (s.hearers k).pc
unfolding start
Reach-Speaks here = λ k. tt
Reach-Speaks (next r st) = (Step-Speaks (Reach-Inv start-Inv r) (Reach-Speaks r) st).0

-- What any step of the process sends is a sequence of texts with their NULs.
pub Step-Grows : {s t : System} → Reach start s → Step s (goes t) → Grows s t
Step-Grows r st = (Step-Speaks (Reach-Inv start-Inv r) (Reach-Speaks r) st).1
