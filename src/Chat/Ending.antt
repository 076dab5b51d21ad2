-- ===== src/Chat/Ending.antt =====
-- What END_COM brings about: both threads of a chat end soon.
use native.Mathlib.Decide.{dec_lt}
use computer_networks_lab.Prelude.{
  ℕ, zero, suc, ◌+◌, ◌≤◌, ◌<◌, ◌≡◌, refl, true, false, Option, some, [], arith, ◌||◌, Bool,
}
use computer_networks_lab.Libc.Text.{Bytes}
use computer_networks_lab.Chat.Threads.{
  is_end, HearPc, TalkPc, Chat, Step, Reach, open_chat, hear_test, hear_recv, hear_check,
  hear_print, hear_leave, talk_test, talk_read, talk_send, talk_send_fails, talk_check, talk_leave,
  main_step, here, next,
}
use computer_networks_lab.Chat.Invariant.{Reach-Inv, open_chat-Inv}

-- The steps that a thread has left.
abbrev pub hear_left : HearPc → ℕ
hear_left HearPc.receiving = 5
hear_left HearPc.checking = 4
hear_left HearPc.printing = 3
hear_left HearPc.testing = 2
hear_left HearPc.leaving = 1
hear_left HearPc.finished = 0

abbrev pub talk_left : TalkPc → ℕ
talk_left TalkPc.reading = 5
talk_left TalkPc.sending = 4
talk_left TalkPc.checking = 3
talk_left TalkPc.testing = 2
talk_left TalkPc.leaving = 1
talk_left TalkPc.finished = 0

abbrev pub left : Chat → ℕ
left s = hear_left s.hear_pc + talk_left s.talk_pc

kept_true : (b c : Bool) → c ≡ true → (b || c) ≡ true
kept_true b c e = ground arith

hear_left_le : (pc : HearPc) → hear_left pc ≤ 5
hear_left_le HearPc.testing = omega arith
hear_left_le HearPc.receiving = omega arith
hear_left_le HearPc.checking = omega arith
hear_left_le HearPc.printing = omega arith
hear_left_le HearPc.leaving = omega arith
hear_left_le HearPc.finished = omega arith

talk_left_le : (pc : TalkPc) → talk_left pc ≤ 5
talk_left_le TalkPc.testing = omega arith
talk_left_le TalkPc.reading = omega arith
talk_left_le TalkPc.sending = omega arith
talk_left_le TalkPc.checking = omega arith
talk_left_le TalkPc.leaving = omega arith
talk_left_le TalkPc.finished = omega arith

hear_none_left : (pc : HearPc) → hear_left pc ≡ 0 → pc ≡ HearPc.finished
hear_none_left HearPc.finished e = refl
hear_none_left HearPc.testing e = absurd (omega arith)
hear_none_left HearPc.receiving e = absurd (omega arith)
hear_none_left HearPc.checking e = absurd (omega arith)
hear_none_left HearPc.printing e = absurd (omega arith)
hear_none_left HearPc.leaving e = absurd (omega arith)

talk_none_left : (pc : TalkPc) → talk_left pc ≡ 0 → pc ≡ TalkPc.finished
talk_none_left TalkPc.finished e = refl
talk_none_left TalkPc.testing e = absurd (omega arith)
talk_none_left TalkPc.reading e = absurd (omega arith)
talk_none_left TalkPc.sending e = absurd (omega arith)
talk_none_left TalkPc.checking e = absurd (omega arith)
talk_none_left TalkPc.leaving e = absurd (omega arith)

module _ {show : Bytes → Option Bytes} where
  abbrev pub cost : {s t : Chat} → Step show s t → ℕ
  cost (hear_test e) = 1
  cost (hear_recv result fits e) = 1
  cost (hear_check e) = 1
  cost (hear_print e) = 1
  cost (hear_leave e) = 1
  cost (talk_test e) = 1
  cost (talk_read e) = 1
  cost (talk_send e) = 1
  cost (talk_send_fails e) = 1
  cost (talk_check e) = 1
  cost (talk_leave e) = 1
  cost main_step = 0

  -- The steps of hear and talk in a run.
  abbrev pub thread_steps : {s t : Chat} → Reach show s t → ℕ
  thread_steps here = 0
  thread_steps (next r st) = thread_steps r + cost st

  Step-end_com : {s t : Chat} → Step show s t → s.end_com ≡ true → t.end_com ≡ true
  Step-end_com (hear_test e) h = h
  Step-end_com (hear_recv result fits e) h = h
  Step-end_com {s} (hear_check e) h = kept_true (is_end s.hear_buffer) s.end_com h
  Step-end_com (hear_print e) h = h
  Step-end_com (hear_leave e) h = h
  Step-end_com (talk_test e) h = h
  Step-end_com (talk_read e) h = h
  Step-end_com (talk_send e) h = h
  Step-end_com (talk_send_fails e) h = h
  Step-end_com {s} (talk_check e) h = kept_true (is_end s.talk_buffer) s.end_com h
  Step-end_com (talk_leave e) h = h
  Step-end_com main_step h = h

  Step-left : {s t : Chat} (st : Step show s t) → s.end_com ≡ true → left t + cost st ≡ left s
  Step-left (hear_test e) h = rw (e, h) (omega arith)
  Step-left (hear_recv result fits e) h = rw e (omega arith)
  Step-left (hear_check e) h = rw e (omega arith)
  Step-left (hear_print e) h = rw e (omega arith)
  Step-left (hear_leave e) h = rw e (omega arith)
  Step-left (talk_test e) h = rw (e, h) (omega arith)
  Step-left (talk_read e) h = rw e (omega arith)
  Step-left (talk_send e) h = rw e (omega arith)
  Step-left (talk_send_fails e) h = rw e (omega arith)
  Step-left (talk_check e) h = rw e (omega arith)
  Step-left (talk_leave e) h = rw e (omega arith)
  Step-left main_step h = omega arith

  Reach-left :
      {s t : Chat} (r : Reach show s t)
      → s.end_com ≡ true
      → (left t + thread_steps r ≡ left s) × (t.end_com ≡ true)
  Reach-left here h = (omega arith, h)
  Reach-left (next r st) h =
      let (less, told) = Reach-left r h in
      (omega (arith, less, Step-left st told), Step-end_com st told)

module _ (show : Bytes → Option Bytes) (s : Chat) where
  -- A step of one of the two threads.
  abbrev ThreadStep : Type 0
  ThreadStep = (u : Chat) × (st : Step show s u) × (cost st ≡ 1)

  hear_goes : (pc : HearPc) → s.hear_pc ≡ pc → 0 < hear_left pc → ThreadStep
  hear_goes HearPc.testing e h = (_, hear_test e, refl)
  hear_goes HearPc.receiving e h = (_, hear_recv (some []) (omega arith) e, refl)
  hear_goes HearPc.checking e h = (_, hear_check e, refl)
  hear_goes HearPc.printing e h = (_, hear_print e, refl)
  hear_goes HearPc.leaving e h = (_, hear_leave e, refl)
  hear_goes HearPc.finished e h = absurd (omega arith)

  talk_goes : (pc : TalkPc) → s.talk_pc ≡ pc → 0 < talk_left pc → ThreadStep
  talk_goes TalkPc.testing e h = (_, talk_test e, refl)
  talk_goes TalkPc.reading e h = (_, talk_read e, refl)
  talk_goes TalkPc.sending e h = (_, talk_send e, refl)
  talk_goes TalkPc.checking e h = (_, talk_check e, refl)
  talk_goes TalkPc.leaving e h = (_, talk_leave e, refl)
  talk_goes TalkPc.finished e h = absurd (omega arith)

  thread_goes : 0 < left s → ThreadStep
  thread_goes h = elim (dec_lt 0 (hear_left s.hear_pc)) [
    | yes some_left ↦ hear_goes s.hear_pc refl some_left
    | no none_left ↦ talk_goes s.talk_pc refl (omega arith)
  ]

module _ {show : Bytes → Option Bytes} where
  run_out :
      {init : Chat} (n : ℕ) (s : Chat)
      → Reach show init s
      → left s ≡ n
      → s.end_com ≡ true
      → (u : Chat) × Reach show init u × (left u ≡ 0)
  run_out zero s r e told = (s, r, e)
  run_out (suc n) s r e told =
      let (t, st, one) = thread_goes show s (omega (arith, e)) in
      run_out n t (next r st) (omega (arith, e, one, Step-left st told)) (Step-end_com st told)

-- Once END_COM is set in a chat, at most ten steps of hear and talk follow in any run, and every such
-- run can go on to the end of both: no thread waits for the other. A step of recv or fgets counts when
-- the call returns.
pub end_com_ends :
    (show : Bytes → Option Bytes) (b c input : Bytes) {s t : Chat}
    → Reach show (open_chat b c input) s
    → s.end_com ≡ true
    → (r : Reach show s t)
    → (thread_steps r ≤ 10) × ((u : Chat) × Reach show t u × (u.hear ≡ false) × (u.talk ≡ false))
end_com_ends show b c input {s} {t} before told r =
    let (less, told') = Reach-left r told in
    let (u, more, over) = run_out (left t) t here refl told' in
    let inv = Reach-Inv (Reach-Inv (Reach-Inv (open_chat-Inv b c input) before) r) more in
    (
      omega (arith, less, hear_left_le s.hear_pc, talk_left_le s.talk_pc),
      (
        u,
        more,
        inv.hear_ended.1 (hear_none_left u.hear_pc (omega (arith, over))),
        inv.talk_ended.1 (talk_none_left u.talk_pc (omega (arith, over))),
      ),
    )
