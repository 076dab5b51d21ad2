-- ===== src/MyApp/Invariant/Halting.antt =====
-- StopApplication and the rest of the simulation keep the invariant.
use mathlib.Core.List.{Memᴰ}
use computer_networks_lab.Prelude.{
  ℕ, ◌≡◌, refl, sym, ◌∙◌, inl, inr, false, Option, none, some, Bool-cases,
}
use computer_networks_lab.MyApp.Simulator.{Simulator}
use computer_networks_lab.MyApp.App.{World, stop_application, close_socket}
use computer_networks_lab.MyApp.System.{Phase, loaded, started, stopped}
use computer_networks_lab.MyApp.Invariant.Defs.{Quiet, Known, Inv}

module _ (S : Simulator) where
  open S use {
    State, EventId, null, is_running, schedule, cancel, expire, null_idle, schedule_runs,
    schedule_only, cancel_stops, cancel_only, expire_stops, expire_only,
  }

  cancelled-Quiet :
      {w : World S} {p : Phase}
      → Inv S w p
      → (x : EventId) → Memᴰ x w.callbacks
      → is_running x (cancel w.app.send_event w.sim) ≡ false
  cancelled-Quiet {w} inv x m = elim (Bool-cases (is_running x (cancel w.app.send_event w.sim))) [
    | inr idle ↦ idle
    | inl busy ↦
        let x≡ : x ≡ w.app.send_event = inv.only x m (cancel_only w.app.send_event w.sim x busy) in
        absurd (cc (cancel_stops w.app.send_event w.sim, x≡, busy))
  ]

  idle-Quiet :
      {w : World S} {p : Phase} → Inv S w p → is_running w.app.send_event w.sim ≡ false → Quiet S w
  idle-Quiet {w} inv idle x m = elim (Bool-cases (is_running x w.sim)) [
    | inr q ↦ q
    | inl busy ↦ absurd (cc (inv.only x m busy, idle, busy))
  ]

  closed-Inv : (o : Option ℕ) {w : World S} → Inv S w stopped → Inv S (close_socket S o w) stopped
  closed-Inv none inv = inv
  closed-Inv (some k) inv = record {
    socket = inv.socket;
    small = inv.small;
    own = inv.own;
    only = inv.only;
    counted = inv.counted;
    bounded = inv.bounded;
    known = inv.known;
  }

  halted-Inv :
      {w : World S} (s : State)
      → Inv S w started
      → ((x : EventId) → Memᴰ x w.callbacks → is_running x s ≡ false)
      → Inv S (record w { app = record w.app { running = false }; sim = s }) stopped
  halted-Inv s inv q = record {
    socket = inv.socket;
    small = inv.small;
    own = inv.own;
    only = λ e m r. absurd (cc (q e m, r));
    counted = inv.counted;
    bounded = inv.bounded;
    known = (refl, q);
  }

  pub stop-Inv : {w : World S} → Inv S w started → Inv S (stop_application S w) stopped
  unfolding stop_application
  stop-Inv {w} inv = elim (Bool-cases (is_running w.app.send_event w.sim)) [
    | inl busy ↦ rw busy (
        closed-Inv w.app.socket
          (halted-Inv (cancel w.app.send_event w.sim) inv (cancelled-Quiet inv)))
    | inr idle ↦ rw idle (closed-Inv w.app.socket (halted-Inv w.sim inv (idle-Quiet inv idle)))
  ]

  elsewhere-Known :
      (w : World S) (p : Phase) (s : State)
      → ((e : EventId) → Memᴰ e w.callbacks → is_running e s ≡ is_running e w.sim)
      → Known S w p
      → Known S (record w { sim = s }) p
  elsewhere-Known w loaded s same known = known
  elsewhere-Known w started s same (r, pos, more, none_left) =
      (r, pos, λ h. let (m, b) = more h in (m, same _ m ∙ b), λ h e m. same e m ∙ none_left h e m)
  elsewhere-Known w stopped s same (r, q) = (r, λ e m. same e m ∙ q e m)

  pub elsewhere-Inv :
      {w : World S} {p : Phase} (s : State)
      → ((e : EventId) → Memᴰ e w.callbacks → is_running e s ≡ is_running e w.sim)
      → Inv S w p
      → Inv S (record w { sim = s }) p
  elsewhere-Inv {w} {p} s same inv = record {
    socket = inv.socket;
    small = inv.small;
    own = inv.own;
    only = λ e m r. inv.only e m (sym (same e m) ∙ r);
    counted = inv.counted;
    bounded = inv.bounded;
    known = elsewhere-Known w p s same inv.known;
  }
