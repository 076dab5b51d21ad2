-- ===== src/MyApp/Timing/Count.antt =====
-- The times at which the paced sender sends, one for each packet counted.
use mathlib.Core.List.{Memᴰ}
use computer_networks_lab.Prelude.{
  ℕ, suc, ◌+◌, ◌^◌, ◌<◌, ◌≡◌, refl, sym, subst, ◌∙◌, ap, some-eq, Bool-cases, inl, inr, true, some,
  List, length, arith,
}
use computer_networks_lab.MyApp.Simulator.{Simulator}
use computer_networks_lab.MyApp.App.{
  World, setup, my_app, send_packet, start_application, stop_application,
}
use computer_networks_lab.MyApp.System.{Phase, loaded, expired, install}
use computer_networks_lab.MyApp.Invariant.{
  Inv, sent_world, starting, send_packet-eq, start_application-eq, fire-started, fire-left,
}
use computer_networks_lab.MyApp.Trace.{Config, count_packet-Kept}
use computer_networks_lab.MyApp.Timing.{
  Clock, begun, after, timed_start, timed_fire, timed_stop, timed_elsewhere, paced_from,
  Paced-paced_from, send_delay,
}
use computer_networks_lab.MyApp.Timing.Pace.{
  TimedReached, known, socket_kept, loaded-times, TimedReached-Paced,
}

module _ (S : Simulator) (C : Clock S) (c : Config) where
  open S use {State, EventId, is_running}

  sent_counted :
      (w : World S) {w' : World S} {k : ℕ}
      → w.app.socket ≡ some k
      → w.app.packets_sent + 1 < 2 ^ 32
      → send_packet S w ≡ some w'
      → w'.app.packets_sent ≡ w.app.packets_sent + 1
  unfolding sent_world
  sent_counted w {w'} socket small eq =
      subst (λ x. x.app.packets_sent ≡ w.app.packets_sent + 1)
        (some-eq (sym (send_packet-eq S w socket) ∙ eq))
        (omega (arith, (count_packet-Kept S c (sent_world S w socket)).counted, small))

  stop_counted :
      (w : World S) {k : ℕ}
      → w.app.socket ≡ some k
      → (stop_application S w).app.packets_sent ≡ w.app.packets_sent
  unfolding stop_application
  stop_counted w socket = elim (Bool-cases (is_running w.app.send_event w.sim)) [
    | inl busy ↦ rw (busy, socket) refl
    | inr idle ↦ rw (idle, socket) refl
  ]

  module _ (s : State) (small : c.n_packets < 2 ^ 32) where
    start_counted :
        {w w' : World S} {ts : List ℕ}
        → TimedReached S C c s small w ts loaded
        → start_application S w ≡ some w'
        → suc (length ts) ≡ w'.app.packets_sent
    unfolding starting
    start_counted {w} {w'} {ts} r eq =
        let one : w'.app.packets_sent ≡ 1 =
          sent_counted (starting S w (socket_kept S C c s small r)) (socket_kept S C c s small r)
            (omega arith) (sym (start_application-eq S w (socket_kept S C c s small r)) ∙ eq) in
        ap (λ l. suc (length l)) (loaded-times S C c s small r refl) ∙ sym one

    fire_counted :
        {w w' : World S} {ts : List ℕ} {p : Phase} (e : EventId)
        → TimedReached S C c s small w ts p
        → Memᴰ e w.callbacks
        → is_running e w.sim ≡ true
        → send_packet S (expired S w e) ≡ some w'
        → length ts ≡ w.app.packets_sent
        → suc (length ts) ≡ w'.app.packets_sent
    fire_counted {w} {w'} {ts} {p} e r m busy eq count =
        let inv = known S C c s small r in
        let left : w.app.packets_sent < w.app.n_packets =
          fire-left S e (subst (λ q. Inv S w q) (fire-started S e inv m busy) inv) m busy in
        let more : w'.app.packets_sent ≡ w.app.packets_sent + 1 =
          sent_counted (expired S w e) (socket_kept S C c s small r)
            (omega (arith, left, inv.small)) eq in
        omega (arith, more, count)

    times_counted :
        {w : World S} {ts : List ℕ} {p : Phase}
        → TimedReached S C c s small w ts p
        → length ts ≡ w.app.packets_sent
    unfolding install setup my_app
    times_counted begun = refl
    times_counted (after r (timed_start e)) = start_counted r e
    times_counted (after r (timed_fire e m b eq)) = fire_counted e r m b eq (times_counted r)
    times_counted (after {w} r timed_stop) =
        times_counted r ∙ sym (stop_counted w (socket_kept S C c s small r))
    times_counted (after r (timed_elsewhere x same at)) = times_counted r

    -- However the application is interleaved with the rest of the simulation, its packets are sent at
    -- regular times, one for each packet counted: the one after n others n delays of packet size * 8 / data
    -- rate after the first.
    pub TimedReached-paced_from :
        {w : World S} {ts : List ℕ} {p : Phase}
        → TimedReached S C c s small w ts p
        → (first : ℕ) × (ts ≡ paced_from first (C.ticks (send_delay c)) w.app.packets_sent)
    TimedReached-paced_from {w} {ts} r =
        let (first, e) =
          Paced-paced_from (C.ticks (send_delay c)) ts (TimedReached-Paced S C c s small r) in
        (first, e ∙ ap (paced_from first (C.ticks (send_delay c))) (times_counted r))
