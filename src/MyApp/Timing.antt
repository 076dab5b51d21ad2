-- ===== src/MyApp/Timing.antt =====
-- When the packets are sent. The time that ns-3 makes of Seconds (x) is a parameter, `ticks`, as are
-- the clock and the time at which an event is due.
use mathlib.Core.List.{Memᴰ}
use computer_networks_lab.Prelude.{
  ◌∙◌, zero, suc, refl, ap, arith, length, ℕ, ◌+◌, ◌*◌, ◌≡◌, true, some, List, [], ◌∷◌,
}
use computer_networks_lab.MyApp.Simulator.{Simulator, Delay}
use computer_networks_lab.MyApp.App.{u32, World, send_packet, start_application, stop_application}
use computer_networks_lab.MyApp.System.{
  Phase, loaded, started, stopped, expired, Step, start, fire, stop, elsewhere, Reach, here, next,
}
use computer_networks_lab.MyApp.Trace.{Config}
pub mod Pace
pub mod Count

-- The clock of a simulator: an event is due at the time of its Schedule plus its delay, and the clock
-- stands at this time when the event expires.
pub record Clock (S : Simulator) : Type 0 where
  pub ticks : Delay → ℕ
  pub now : S.State → ℕ
  pub due : S.EventId → S.State → ℕ
  pub due_schedule :
      (d : Delay) (s : S.State) → due (S.schedule d s).0 (S.schedule d s).1 ≡ now s + ticks d
  pub now_expire :
      (e : S.EventId) (s : S.State) → S.is_running e s ≡ true → now (S.expire e s) ≡ due e s

module _ (S : Simulator) (C : Clock S) where
  open S use {State, EventId, is_running, expire}
  open C use {now, due}

  -- A step of the system with the times, the newest first, at which packets have been sent. What else
  -- goes on leaves the events of the application at their times.
  pub data TimedStep (w : World S) (ts : List ℕ) : Phase → World S → List ℕ → Phase → Type 0 where
    timed_start :
        {w' : World S}
        → start_application S w ≡ some w'
        → TimedStep w ts loaded w' (now w.sim ∷ ts) started
    timed_fire :
        {p : Phase} {w' : World S} (e : EventId)
        → Memᴰ e w.callbacks
        → is_running e w.sim ≡ true
        → send_packet S (expired S w e) ≡ some w'
        → TimedStep w ts p w' (now (expire e w.sim) ∷ ts) p
    timed_stop : TimedStep w ts started (stop_application S w) ts stopped
    timed_elsewhere :
        {p : Phase} (s : State)
        → ((e : EventId) → Memᴰ e w.callbacks → is_running e s ≡ is_running e w.sim)
        → ((e : EventId) → Memᴰ e w.callbacks → due e s ≡ due e w.sim)
        → TimedStep w ts p (record w { sim = s }) ts p

  pub data TimedReach (init : World S) : World S → List ℕ → Phase → Type 0 where
    begun : TimedReach init init [] loaded
    after :
        {w w' : World S} {ts ts' : List ℕ} {p p' : Phase}
        → TimedReach init w ts p
        → TimedStep w ts p w' ts' p'
        → TimedReach init w' ts' p'

  TimedStep-Step :
      {w w' : World S} {ts ts' : List ℕ} {p p' : Phase}
      → TimedStep w ts p w' ts' p'
      → Step S w p w' p'
  TimedStep-Step (timed_start e) = start e
  TimedStep-Step (timed_fire e m r eq) = fire e m r eq
  TimedStep-Step timed_stop = stop
  TimedStep-Step (timed_elsewhere s same same') = elsewhere s same

  pub TimedReach-Reach :
      {init w : World S} {ts : List ℕ} {p : Phase} → TimedReach init w ts p → Reach S init w p
  TimedReach-Reach begun = here
  TimedReach-Reach (after r st) = next (TimedReach-Reach r) (TimedStep-Step st)

-- Times, the newest first, that go up by `d`.
abbrev pub Paced : ℕ → List ℕ → Type 0
Paced d [] = Unit
Paced d (t ∷ []) = Unit
Paced d (t ∷ u ∷ ts) = (t ≡ u + d) × Paced d (u ∷ ts)

-- The first `n` of these times, if the first is `t`.
abbrev pub paced_from : ℕ → ℕ → ℕ → List ℕ
paced_from t d zero = []
paced_from t d (suc n) = (t + n * d) ∷ paced_from t d n

one_later : (t n d : ℕ) → t + n * d + d ≡ t + suc n * d
one_later t n d = ground arith

newest_at :
    (d t : ℕ) (ts : List ℕ)
    → Paced d (t ∷ ts)
    → (first : ℕ) × (t ≡ first + length ts * d) × (ts ≡ paced_from first d (length ts))
newest_at d t [] h = (t, omega arith, refl)
newest_at d t (u ∷ ts) h =
    let (first, at, before) = newest_at d u ts h.1 in
    (
      first,
      h.0 ∙ (ap (λ x. x + d) at ∙ one_later first (length ts) d),
      rw (← before) (ap (λ x. x ∷ ts) at),
    )

pub Paced-paced_from :
    (d : ℕ) (ts : List ℕ) → Paced d ts → (first : ℕ) × (ts ≡ paced_from first d (length ts))
Paced-paced_from d [] h = (0, refl)
Paced-paced_from d (t ∷ ts) h =
    let (first, at, before) = newest_at d t ts h in
    (first, ap (λ x. x ∷ ts) at ∙ ap (◌∷◌ (first + length ts * d)) before)

-- The delay that ScheduleTx asks for.
abbrev pub send_delay : Config → Delay
send_delay c = record { bits = u32 (c.packet_size * 8); bit_rate = c.data_rate }
