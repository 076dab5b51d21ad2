-- ===== src/MyApp/Timing/Pace.antt =====
-- The paced sender sends at regular times.
use mathlib.Core.List.{Memᴰ}
use computer_networks_lab.Prelude.{
  ℕ, ◌+◌, ◌^◌, ◌<◌, ◌≡◌, refl, sym, subst, ◌∙◌, ap, some-eq, Bool-cases, inl, inr, true, false,
  some, List, [], ◌∷◌, ltb,
}
use computer_networks_lab.MyApp.Simulator.{Simulator}
use computer_networks_lab.MyApp.App.{
  u32, World, t_next, setup, my_app, count_packet, send_packet, start_application, stop_application,
}
use computer_networks_lab.MyApp.System.{Phase, loaded, expired, install}
use computer_networks_lab.MyApp.Invariant.{
  Inv, sent_world, starting, send_packet-eq, start_application-eq, install-Inv, Reach-Inv,
  fire-started, not-Memᴰ-nil,
}
use computer_networks_lab.MyApp.Trace.{Config, Reach-IsTraced}
use computer_networks_lab.MyApp.Timing.{
  Clock, TimedReach, begun, after, timed_start, timed_fire, timed_stop, timed_elsewhere,
  TimedReach-Reach, Paced, send_delay,
}

module _ (S : Simulator) (C : Clock S) (c : Config) where
  open S use {State, EventId, null, is_running, expire, null_idle, cancel_stops, expire_stops}
  open C use {ticks, now, due, due_schedule, now_expire}

  -- If an event is outstanding, it is due a delay after the last packet.
  abbrev Timely : EventId → State → List ℕ → Type 0
  Timely e x [] = is_running e x ≡ false
  Timely e x (t ∷ ts) = is_running e x ≡ true → due e x ≡ t + ticks (send_delay c)

  record TimeInv (w : World S) (ts : List ℕ) : Type 0 where
    asks : t_next S w.app ≡ send_delay c
    paced : Paced (ticks (send_delay c)) ts
    timely : Timely w.app.send_event w.sim ts

  -- SendPacket after its send, at the time of the state before it.
  count_packet-Timely :
      (w : World S) (ts : List ℕ)
      → t_next S w.app ≡ send_delay c
      → is_running w.app.send_event w.sim ≡ false
      → (t_next S (count_packet S w).app ≡ send_delay c)
        × Timely (count_packet S w).app.send_event (count_packet S w).sim (now w.sim ∷ ts)
  unfolding count_packet t_next
  count_packet-Timely w ts asks idle =
      elim (Bool-cases (ltb (u32 (w.app.packets_sent + 1)) w.app.n_packets)) [
        | inr done ↦ rw done (asks, λ busy. absurd (cc (idle, busy)))
        | inl more ↦ elim (Bool-cases w.app.running) [
          | inr halted ↦ rw (more, halted) (asks, λ busy. absurd (cc (idle, busy)))
          | inl running ↦
              rw (more, running)
                (asks, λ busy. due_schedule _ w.sim ∙ ap (λ d. now w.sim + ticks d) asks)
        ]
      ]

  sent-TimeInv :
      (w : World S) {w' : World S} {k : ℕ} (ts : List ℕ)
      → w.app.socket ≡ some k
      → t_next S w.app ≡ send_delay c
      → is_running w.app.send_event w.sim ≡ false
      → Paced (ticks (send_delay c)) (now w.sim ∷ ts)
      → send_packet S w ≡ some w'
      → TimeInv w' (now w.sim ∷ ts)
  unfolding sent_world t_next
  sent-TimeInv w ts socket asks idle paced eq =
      let kept = count_packet-Timely (sent_world S w socket) ts asks idle in
      rw (← (some-eq (sym (send_packet-eq S w socket) ∙ eq)))
        (record { asks = kept.0; paced = paced; timely = kept.1 })

  -- The clock when an event of the application expires.
  fired-Paced :
      {w : World S} (ts : List ℕ) (e : EventId)
      → e ≡ w.app.send_event
      → is_running e w.sim ≡ true
      → TimeInv w ts
      → Paced (ticks (send_delay c)) (now (expire e w.sim) ∷ ts)
  fired-Paced [] e own busy inv = tt
  fired-Paced {w} (t ∷ ts) e own busy inv = (
    now_expire e w.sim busy ∙ (ap (λ x. due x w.sim) own ∙ inv.timely (cc (own, busy))),
    inv.paced,
  )

  elsewhere-Timely :
      (e : EventId) (x y : State) (ts : List ℕ)
      → is_running e y ≡ is_running e x
      → due e y ≡ due e x
      → Timely e x ts
      → Timely e y ts
  elsewhere-Timely e x y [] same at h = same ∙ h
  elsewhere-Timely e x y (t ∷ ts) same at h = λ busy. at ∙ h (sym same ∙ busy)

  idle-Timely : (e : EventId) (x : State) (ts : List ℕ) → is_running e x ≡ false → Timely e x ts
  idle-Timely e x [] h = h
  idle-Timely e x (t ∷ ts) h = λ busy. absurd (cc (h, busy))

  module _ (s : State) (small : c.n_packets < 2 ^ 32) where
    abbrev pub TimedReached : World S → List ℕ → Phase → Type 0
    TimedReached =
        TimedReach S C (install S c.socket c.peer c.packet_size c.n_packets c.data_rate s)

    pub known : {w : World S} {ts : List ℕ} {p : Phase} → TimedReached w ts p → Inv S w p
    known r =
        Reach-Inv S (install-Inv S c.socket c.peer c.packet_size c.n_packets c.data_rate s small)
          (TimedReach-Reach S C r)

    pub socket_kept :
        {w : World S} {ts : List ℕ} {p : Phase} → TimedReached w ts p → w.app.socket ≡ some c.socket
    socket_kept r = (Reach-IsTraced S c s small (TimedReach-Reach S C r)).socket

    unstarted :
        {w : World S} {ts : List ℕ}
        → TimedReached w ts loaded
        → is_running w.app.send_event w.sim ≡ false
    unstarted {w} r = elim (known r).own [
      | inl e ↦ rw e (null_idle w.sim)
      | inr m ↦ absurd (not-Memᴰ-nil (subst (Memᴰ w.app.send_event) (known r).known.2 m))
    ]

    -- Nothing is sent before StartApplication.
    pub loaded-times :
        {w : World S} {ts : List ℕ} {p : Phase} → TimedReached w ts p → p ≡ loaded → ts ≡ []
    loaded-times begun h = refl
    loaded-times (after r (timed_start e)) h = absurd (cc)
    loaded-times (after r (timed_fire e m b eq)) h = absurd (cc (fire-started S e (known r) m b, h))
    loaded-times (after r timed_stop) h = absurd (cc)
    loaded-times (after r (timed_elsewhere x same at)) h = loaded-times r h

    start-TimeInv :
        {w w' : World S} {ts : List ℕ}
        → TimedReached w ts loaded
        → start_application S w ≡ some w'
        → TimeInv w ts
        → TimeInv w' (now w.sim ∷ ts)
    unfolding starting t_next
    start-TimeInv {w} {w'} r eq inv =
        subst (λ l. TimeInv w' (now w.sim ∷ l)) (sym (loaded-times r refl))
          (sent-TimeInv (starting S w (socket_kept r)) [] (socket_kept r) inv.asks (unstarted r) tt
            (sym (start_application-eq S w (socket_kept r)) ∙ eq))

    fire-TimeInv :
        {w w' : World S} {ts : List ℕ} {p : Phase} (e : EventId)
        → TimedReached w ts p
        → Memᴰ e w.callbacks
        → is_running e w.sim ≡ true
        → send_packet S (expired S w e) ≡ some w'
        → TimeInv w ts
        → TimeInv w' (now (expire e w.sim) ∷ ts)
    unfolding t_next
    fire-TimeInv {w} {w'} {ts} e r m busy eq inv =
        let own : e ≡ w.app.send_event = (known r).only e m busy in
        sent-TimeInv (expired S w e) ts (socket_kept r) inv.asks
          (subst (λ x. is_running x (expire e w.sim) ≡ false) own (expire_stops e w.sim))
          (fired-Paced ts e own busy inv) eq

    stop-TimeInv :
        (w : World S) (ts : List ℕ)
        → w.app.socket ≡ some c.socket
        → TimeInv w ts
        → TimeInv (stop_application S w) ts
    unfolding stop_application t_next
    stop-TimeInv w ts socket inv = elim (Bool-cases (is_running w.app.send_event w.sim)) [
      | inl busy ↦
          rw (busy, socket)
            (record {
              asks = inv.asks;
              paced = inv.paced;
              timely = idle-Timely _ _ ts (cancel_stops w.app.send_event w.sim);
            })
      | inr idle ↦
          rw (idle, socket)
            (record { asks = inv.asks; paced = inv.paced; timely = idle-Timely _ _ ts idle })
    ]

    elsewhere-TimeInv :
        {w : World S} {ts : List ℕ} {p : Phase} (x : State)
        → TimedReached w ts p
        → ((e : EventId) → Memᴰ e w.callbacks → is_running e x ≡ is_running e w.sim)
        → ((e : EventId) → Memᴰ e w.callbacks → due e x ≡ due e w.sim)
        → TimeInv w ts
        → TimeInv (record w { sim = x }) ts
    unfolding t_next
    elsewhere-TimeInv {w} {ts} x r same at inv = record {
      asks = inv.asks;
      paced = inv.paced;
      timely = elim (known r).own [
        | inl e ↦ idle-Timely _ _ ts (ap (λ y. is_running y x) e ∙ null_idle x)
        | inr m ↦ elsewhere-Timely _ _ _ ts (same _ m) (at _ m) inv.timely
      ];
    }

    TimedReach-TimeInv :
        {w : World S} {ts : List ℕ} {p : Phase} → TimedReached w ts p → TimeInv w ts
    unfolding install setup my_app t_next
    TimedReach-TimeInv begun = record { asks = refl; paced = tt; timely = null_idle s }
    TimedReach-TimeInv (after r (timed_start e)) = start-TimeInv r e (TimedReach-TimeInv r)
    TimedReach-TimeInv (after r (timed_fire e m b eq)) =
        fire-TimeInv e r m b eq (TimedReach-TimeInv r)
    TimedReach-TimeInv (after {w} {ts} r timed_stop) =
        stop-TimeInv w ts (socket_kept r) (TimedReach-TimeInv r)
    TimedReach-TimeInv (after r (timed_elsewhere x same at)) =
        elsewhere-TimeInv x r same at (TimedReach-TimeInv r)

    -- However the application is interleaved with the rest of the simulation, its packets are sent at
    -- regular times: each one delay of packet size * 8 / data rate after the packet before it.
    pub TimedReached-Paced :
        {w : World S} {ts : List ℕ} {p : Phase}
        → TimedReached w ts p
        → Paced (ticks (send_delay c)) ts
    TimedReached-Paced r = (TimedReach-TimeInv r).paced
