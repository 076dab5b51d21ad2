-- ===== src/MyApp/Delivery.antt =====
-- What the paced sender delivers, and what it never does.
use mathlib.Core.List.{Memᴰ}
use native.Mathlib.Decide.{dec_lt}
use computer_networks_lab.Prelude.{
  ℕ, zero, suc, ◌+◌, ◌*◌, ◌^◌, ◌≤◌, ◌<◌, max, ◌≡◌, refl, ◌∙◌, ap, inl, inr, ◌↔◌, true, false,
  Option, some, arith, Bool-cases,
}
use computer_networks_lab.MyApp.Simulator.{Simulator}
use computer_networks_lab.MyApp.App.{◌>>=◌, MyApp, World, t_next, count_packet, send_packet}
use computer_networks_lab.MyApp.System.{
  Phase, started, stopped, expired, install, Step, start, fire, stop, elsewhere, Reach, next,
}
use computer_networks_lab.MyApp.Invariant.{
  Inv, install-Inv, Reach-Inv, fire-started, fire-left, sent_world, send_packet-eq,
}
use computer_networks_lab.MyApp.Trace.{
  Config, session, Log, IsTraced, Kept, count_packet-Kept, Reach-IsTraced,
}

-- In a uint32_t the bits of a packet are exact below 2^29 bytes.
t_next_exact :
    (S : Simulator) (a : MyApp S.EventId)
    → a.packet_size < 2 ^ 29
    → t_next S a ≡ record { bits = 8 * a.packet_size; bit_rate = a.data_rate }
unfolding t_next
t_next_exact S a h = ground arith

module _ (S : Simulator) (c : Config) (s : S.State) (small : c.n_packets < 2 ^ 32) where
  open S use {EventId, is_running}

  abbrev pub Reached : World S → Phase → Type 0
  Reached = Reach S (install S c.socket c.peer c.packet_size c.n_packets c.data_rate s)

  Reached-Inv : {w : World S} {p : Phase} → Reached w p → Inv S w p
  Reached-Inv r =
      Reach-Inv S (install-Inv S c.socket c.peer c.packet_size c.n_packets c.data_rate s small) r

  -- Whatever the scheduler does, the calls on the socket are a bind, a connect and the packets sent
  -- so far, each of the packet size, and after StopApplication a close; there are none before
  -- StartApplication, and the packets are never more than the number asked for, or one if that is 0.
  pub session-Log :
      {w : World S} {p : Phase}
      → Reached w p
      → Log S c w p × (w.app.packets_sent ≤ max 1 c.n_packets)
  session-Log r =
      let trace = Reach-IsTraced S c s small r in
      (trace.log, omega (arith, (Reached-Inv r).bounded, trace.n_packets))

  -- Once StopApplication has been called, no step makes a call on the socket.
  pub stopped_silent :
      {w w' : World S} {p : Phase}
      → Reached w stopped
      → Step S w stopped w' p
      → (w'.actions ≡ w.actions) × (p ≡ stopped)
  stopped_silent r st = silent r st refl
    where
      silent :
          {w w' : World S} {p q : Phase}
          → Reached w p
          → Step S w p w' q
          → p ≡ stopped
          → (w'.actions ≡ w.actions) × (q ≡ stopped)
      silent r (start e) h = absurd (cc)
      silent r (fire e m b eq) h = absurd (cc (fire-started S e (Reached-Inv r) m b))
      silent r stop h = absurd (cc)
      silent r (elsewhere x same) h = (refl, h)

  idle_when_done :
      {w : World S}
      → Reached w started
      → c.n_packets ≤ w.app.packets_sent
      → is_running w.app.send_event w.sim ≡ false
  idle_when_done {w} r h = elim (Reached-Inv r).own [
    | inl e ↦ rw e (S.null_idle w.sim)
    | inr m ↦ (Reached-Inv r).known.3 (omega (arith, (Reach-IsTraced S c s small r).n_packets)) _ m
  ]

  -- While the application runs, its event is outstanding exactly when packets are left, and it has
  -- no other event outstanding.
  pub pending_iff :
      {w : World S}
      → Reached w started
      → ((is_running w.app.send_event w.sim ≡ true) ↔ (w.app.packets_sent < c.n_packets))
        × ((e : EventId) → Memᴰ e w.callbacks → is_running e w.sim ≡ true → e ≡ w.app.send_event)
  pending_iff {w} r = ((left, pending), (Reached-Inv r).only)
    where
      same : w.app.n_packets ≡ c.n_packets
      same = (Reach-IsTraced S c s small r).n_packets

      left : is_running w.app.send_event w.sim ≡ true → w.app.packets_sent < c.n_packets
      left b = elim (dec_lt w.app.packets_sent c.n_packets) [
        | yes h ↦ h
        | no h ↦ absurd (cc (idle_when_done r (omega arith), b))
      ]

      pending : w.app.packets_sent < c.n_packets → is_running w.app.send_event w.sim ≡ true
      pending h = ((Reached-Inv r).known.2 (omega (arith, same))).1

  -- The scheduler runs the outstanding event of the application, up to `fuel` times.
  unfoldable pub drain : ℕ → World S → Option (World S)
  drain zero w = some w
  drain (suc fuel) w = elim (is_running w.app.send_event w.sim) [
    | true ↦ send_packet S (expired S w w.app.send_event) >>= λ w'. drain fuel w'
    | false ↦ some w
  ]

  none_left :
      {w : World S}
      → Reached w started
      → is_running w.app.send_event w.sim ≡ false
      → c.n_packets ≤ w.app.packets_sent
  none_left {w} r idle = elim (dec_lt w.app.packets_sent c.n_packets) [
    | yes h ↦ absurd (cc ((pending_iff r).0.1 h, idle))
    | no h ↦ omega arith
  ]

  done_actions :
      {w : World S}
      → Reached w started
      → c.n_packets ≤ w.app.packets_sent
      → w.actions ≡ session c (max 1 c.n_packets)
  done_actions {w} r h = trace.log ∙ ap (session c) all
    where
      trace : IsTraced S c w started
      trace = Reach-IsTraced S c s small r

      all : w.app.packets_sent ≡ max 1 c.n_packets
      all = omega (arith, (Reached-Inv r).bounded, (Reached-Inv r).known.1, trace.n_packets)

  owned :
      {w : World S}
      → Reached w started
      → is_running w.app.send_event w.sim ≡ true
      → Memᴰ w.app.send_event w.callbacks
  owned {w} r busy = elim (Reached-Inv r).own [
    | inl e ↦ absurd (cc (S.null_idle w.sim, e, busy))
    | inr m ↦ m
  ]

  -- The outstanding event expires: one more packet.
  next_packet :
      {w : World S}
      → Reached w started
      → is_running w.app.send_event w.sim ≡ true
      → (w' : World S) × (send_packet S (expired S w w.app.send_event) ≡ some w')
        × Reached w' started
        × (w'.app.packets_sent ≡ w.app.packets_sent + 1)
  unfolding sent_world
  next_packet {w} r busy = (
    count_packet S sending,
    sent,
    next r (fire _ (owned r busy) busy sent),
    omega (arith, kept.counted, left, (Reached-Inv r).small),
  )
    where
      expiring : World S
      expiring = expired S w w.app.send_event

      here : expiring.app.socket ≡ some c.socket
      here = (Reach-IsTraced S c s small r).socket

      sending : World S
      sending = sent_world S expiring here

      sent : send_packet S expiring ≡ some (count_packet S sending)
      sent = send_packet-eq S expiring here

      kept : Kept S c sending (count_packet S sending)
      kept = count_packet-Kept S c sending

      left : w.app.packets_sent < w.app.n_packets
      left = fire-left S _ (Reached-Inv r) (owned r busy) busy

  -- A started application whose events are left to expire sends every packet asked for, at least
  -- one, and then has no event outstanding. As many rounds as packets are enough.
  pub drain_delivers :
      (fuel : ℕ) (w : World S)
      → Reached w started
      → c.n_packets ≤ w.app.packets_sent + fuel
      → (w' : World S) × (drain fuel w ≡ some w')
        × Reached w' started
        × (w'.actions ≡ session c (max 1 c.n_packets))
        × (is_running w'.app.send_event w'.sim ≡ false)
  unfolding drain
  drain_delivers zero w r h =
      (w, refl, r, done_actions r (omega arith), idle_when_done r (omega arith))
  drain_delivers (suc fuel) w r h = elim (Bool-cases (is_running w.app.send_event w.sim)) [
    | inr idle ↦ (w, rw (idle, drain), r, done_actions r (none_left r idle), idle)
    | inl busy ↦
        let (w', sent, r', grown) = next_packet r busy in
        let (w'', runs, r'', log, idle) = drain_delivers fuel w' r' (omega (arith, grown)) in
        (w'', rw (busy, drain) (rw sent runs), r'', log, idle)
  ]
