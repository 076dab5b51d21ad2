-- ===== src/MyApp/Invariant.antt =====
-- What holds of the application after every step: it has at most one event outstanding, and only
-- while it runs and has packets left.
mod Defs
mod Sending
mod Halting
pub use Defs.*
unfoldable pub use Sending.{sent_world, starting}
pub use Sending.{install-Inv, send_packet-eq, start_application-eq}
use Sending.{start-Inv, fire-Inv}
use Halting.{stop-Inv, elsewhere-Inv}
use mathlib.Core.List.{Memᴰ}
use mathlib.Core.Path.{subst}
use native.Mathlib.Decide.{dec_lt}
use computer_networks_lab.Prelude.{
  ℕ, suc, ◌+◌, ◌*◌, ◌%◌, ◌^◌, ◌≤◌, ◌<◌, max, ◌≡◌, refl, sym, ◌∙◌, ap, ◌⊎◌, inl, inr, ◌≢◌, Bool,
  true, false, Option, none, some, List, [], ◌∷◌, arith, ltb, if◌then◌else◌, Bool-cases,
  Option-cases, some-eq,
}
use computer_networks_lab.MyApp.Simulator.{Delay, Simulator}
use computer_networks_lab.MyApp.App.{
  u32, acted, Action, bind, connect, send, close, MyApp, World, my_app, setup, t_next, schedule_tx,
  count_packet, send_packet, start_application, stop_application, close_socket,
}
use computer_networks_lab.MyApp.System.{
  Phase, expired, loaded, started, stopped, install, Step, start, fire, stop, elsewhere, Reach,
  here, next,
}

module _ (S : Simulator) where
  open S use {
    State, EventId, null, is_running, schedule, cancel, expire, null_idle, schedule_runs,
    schedule_only, cancel_stops, cancel_only, expire_stops, expire_only,
  }

  -- No event of the application can expire before it is started or after it is stopped.
  pub fire-started :
      {w : World S} {p : Phase} (e : EventId)
      → Inv S w p
      → Memᴰ e w.callbacks
      → is_running e w.sim ≡ true
      → p ≡ started
  fire-started {p = loaded} e inv m r = absurd (not-Memᴰ-nil (subst (Memᴰ e) inv.known.2 m))
  fire-started {p = started} e inv m r = refl
  fire-started {p = stopped} e inv m r = absurd (cc (inv.known.1 e m, r))

  pub fire-left :
      {w : World S} (e : EventId)
      → Inv S w started
      → Memᴰ e w.callbacks
      → is_running e w.sim ≡ true
      → w.app.packets_sent < w.app.n_packets
  fire-left {w} e inv m r = elim (dec_lt w.app.packets_sent w.app.n_packets) [
    | yes left ↦ left
    | no none_left ↦ absurd (cc (inv.known.3 (omega arith) e m, r))
  ]

  -- Every step of the application and of the scheduler keeps the invariant.
  pub Step-Inv : {w w' : World S} {p p' : Phase} → Step S w p w' p' → Inv S w p → Inv S w' p'
  Step-Inv (start e) inv = start-Inv S inv e
  Step-Inv (fire {p} e m r eq) inv =
      let here : p ≡ started = fire-started e inv m r in
      rw here (fire-Inv S e (rw here at inv) m r eq)
  Step-Inv stop inv = stop-Inv S inv
  Step-Inv (elsewhere s same) inv = elsewhere-Inv S s same inv

  pub Reach-Inv : {init w : World S} {p : Phase} → Inv S init loaded → Reach S init w p → Inv S w p
  Reach-Inv h here = h
  Reach-Inv h (next r st) = Step-Inv st (Reach-Inv h r)
