-- ===== src/MyApp/Invariant/Sending.antt =====
-- StartApplication and SendPacket keep the invariant.
use mathlib.Core.List.{Memᴰ}
use mathlib.Core.Path.{subst}
use native.Mathlib.Decide.{dec_lt}
use computer_networks_lab.Prelude.{
  ℕ, ◌+◌, ◌^◌, ◌≤◌, ◌<◌, max, ◌≡◌, refl, sym, ◌∙◌, ◌⊎◌, inl, inr, ◌≢◌, true, false, none, some, ◌∷◌,
  arith, ltb, Bool-cases, Option-cases, some-eq,
}
use computer_networks_lab.MyApp.Simulator.{Delay, Simulator}
use computer_networks_lab.MyApp.App.{
  u32, acted, Action, bind, connect, World, my_app, setup, t_next, count_packet, send_packet,
  start_application,
}
use computer_networks_lab.MyApp.System.{Phase, expired, loaded, started, install}
use computer_networks_lab.MyApp.Invariant.Defs.{not-Memᴰ-nil, Memᴰ-cases, sends, Quiet, Inv}

module _ (S : Simulator) where
  open S use {
    State, EventId, null, is_running, schedule, cancel, expire, null_idle, schedule_runs,
    schedule_only, cancel_stops, cancel_only, expire_stops, expire_only,
  }

  pub install-Inv :
      (socket address size n rate : ℕ) (s : State)
      → n < 2 ^ 32
      → Inv S (install S socket address size n rate s) loaded
  unfolding install setup my_app
  install-Inv socket address size n rate s h = record {
    socket = λ e. cc;
    small = h;
    own = inl refl;
    only = λ e m r. absurd (not-Memᴰ-nil m);
    counted = refl;
    bounded = omega arith;
    known = (refl, refl, refl, refl);
  }

  only-schedule :
      (w : World S) (d : Delay)
      → Quiet S w
      → (e : EventId) → Memᴰ e ((schedule d w.sim).0 ∷ w.callbacks)
      → is_running e (schedule d w.sim).1 ≡ true
      → e ≡ (schedule d w.sim).0
  only-schedule w d q e m r = elim (Memᴰ-cases m) [
    | inl p ↦ p
    | inr old ↦ elim (schedule_only d w.sim e r) [ inl p ↦ p | inr r' ↦ absurd (cc (q e old, r')) ]
  ]

  -- With no event outstanding and a packet just sent, the rest of SendPacket keeps the invariant.
  count_packet-Inv :
      (w : World S)
      → w.app.socket ≢ none
      → w.app.n_packets < 2 ^ 32
      → sends w.actions ≡ w.app.packets_sent + 1
      → w.app.packets_sent + 1 ≤ max 1 w.app.n_packets
      → w.app.running ≡ true
      → (w.app.send_event ≡ null) ⊎ Memᴰ w.app.send_event w.callbacks
      → Quiet S w
      → Inv S (count_packet S w) started
  unfolding count_packet t_next
  count_packet-Inv w socket small counted bounded running own q =
      elim (Bool-cases (ltb (u32 (w.app.packets_sent + 1)) w.app.n_packets)) [
        | inl more ↦
            rw (more, running)
              (record {
                socket = socket;
                small = small;
                own = inr (Memᴰ.head refl);
                only = only-schedule w (t_next S w.app) q;
                counted = omega arith;
                bounded = omega arith;
                known = (
                  refl,
                  omega arith,
                  λ _. (Memᴰ.head refl, schedule_runs (t_next S w.app) w.sim),
                  λ none_left. absurd (ground arith),
                );
              })
        | inr done ↦ rw done (record {
          socket = socket;
          small = small;
          own = own;
          only = λ e m r. absurd (cc (q e m));
          counted = omega arith;
          bounded = omega arith;
          known = (running, omega arith, λ left. absurd (ground arith), λ _. q);
        })
      ]

  expired-Quiet :
      {w : World S} {p : Phase} (e : EventId)
      → Inv S w p
      → Memᴰ e w.callbacks
      → is_running e w.sim ≡ true
      → (x : EventId) → Memᴰ x w.callbacks
      → is_running x (expire e w.sim) ≡ false
  expired-Quiet {w} e inv m r x mx = elim (Bool-cases (is_running x (expire e w.sim))) [
    | inr idle ↦ idle
    | inl busy ↦
        let x≡ : x ≡ w.app.send_event = inv.only x mx (expire_only e w.sim x busy) in
        let e≡ : e ≡ w.app.send_event = inv.only e m r in
        absurd (cc (expire_stops e w.sim, x≡, e≡, busy))
  ]

  -- A send through a socket that is there.
  module _ (w : World S) {k : ℕ} (here : w.app.socket ≡ some k) where
    unfoldable pub sent_world : World S
    sent_world = acted S (Action.send k w.app.packet_size) w

    pub send_packet-eq : send_packet S w ≡ some (count_packet S sent_world)
    unfolding send_packet sent_world
    send_packet-eq = rw here

    sent-Inv :
        w.app.n_packets < 2 ^ 32
        → sends w.actions ≡ w.app.packets_sent
        → w.app.packets_sent + 1 ≤ max 1 w.app.n_packets
        → w.app.running ≡ true
        → (w.app.send_event ≡ null) ⊎ Memᴰ w.app.send_event w.callbacks
        → Quiet S w
        → {w' : World S} → send_packet S w ≡ some w'
        → Inv S w' started
    unfolding sent_world
    sent-Inv small counted bounded running own q e = rw (← (some-eq (sym send_packet-eq ∙ e))) (
        count_packet-Inv sent_world (λ n. absurd (cc (here, n))) small (omega arith) bounded running
          own q)

  -- StartApplication before its SendPacket.
  module _ (w : World S) {k : ℕ} (here : w.app.socket ≡ some k) where
    unfoldable pub starting : World S
    starting =
        acted S (connect k w.app.peer)
          (acted S (bind k) (record w { app = record w.app { running = true; packets_sent = 0 } }))

    pub start_application-eq : start_application S w ≡ send_packet S starting
    unfolding start_application starting
    start_application-eq = rw here

    starting-Inv :
        {w' : World S} → Inv S w loaded → start_application S w ≡ some w' → Inv S w' started
    unfolding starting
    starting-Inv inv e =
        sent-Inv starting here inv.small (omega (arith, inv.known)) (omega arith) refl inv.own
          (λ x m. absurd (not-Memᴰ-nil (subst (Memᴰ x) inv.known.2 m)))
          (sym start_application-eq ∙ e)

  pub start-Inv :
      {w w' : World S} → Inv S w loaded → start_application S w ≡ some w' → Inv S w' started
  start-Inv {w} inv e = elim (Option-cases w.app.socket) [
    | inl n ↦ absurd (inv.socket n)
    | inr (k, h) ↦ starting-Inv w h inv e
  ]

  -- An event of a started application expires only while packets are left.
  pub fire-Inv :
      {w w' : World S} (e : EventId)
      → Inv S w started
      → Memᴰ e w.callbacks
      → is_running e w.sim ≡ true
      → send_packet S (expired S w e) ≡ some w'
      → Inv S w' started
  fire-Inv {w} e inv m r eq = elim (Option-cases w.app.socket) [
    | inl n ↦ absurd (inv.socket n)
    | inr (k, h) ↦ elim (dec_lt w.app.packets_sent w.app.n_packets) [
      | no none_left ↦ absurd (cc (inv.known.3 (omega arith) e m, r))
      | yes left ↦
          sent-Inv (expired S w e) h inv.small inv.counted (omega arith) inv.known.0 inv.own
            (expired-Quiet e inv m r) eq
    ]
  ]
