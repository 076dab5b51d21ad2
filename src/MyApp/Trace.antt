-- ===== src/MyApp/Trace.antt =====
-- The calls that the application makes on its socket, in order.
use computer_networks_lab.Prelude.{
  ℕ, suc, ◌+◌, ◌^◌, ◌<◌, ◌≡◌, refl, sym, ◌∙◌, ap, some-eq, Bool-cases, inl, inr, some, List, [],
  ◌∷◌, ◌++◌, replicate, arith, ltb,
}
use computer_networks_lab.MyApp.Simulator.{Simulator}
use computer_networks_lab.MyApp.App.{
  u32, Action, bind, connect, send, close, World, setup, count_packet, send_packet,
  start_application, stop_application,
}
use computer_networks_lab.MyApp.System.{
  Phase, loaded, started, stopped, expired, install, Step, start, fire, stop, elsewhere, Reach,
  here, next,
}
use computer_networks_lab.MyApp.Invariant.{
  sent_world, starting, send_packet-eq, start_application-eq, install-Inv, Inv, Reach-Inv,
  fire-started, fire-left,
}

-- The application as main set it up: what no step changes.
pub record Config : Type 0 where
  pub socket : ℕ
  pub peer : ℕ
  pub packet_size : ℕ
  pub n_packets : ℕ
  pub data_rate : ℕ

-- The calls, newest first, once `n` packets are sent.
abbrev pub session : Config → ℕ → List Action
session c n =
    replicate n (send c.socket c.packet_size) ++ connect c.socket c.peer ∷ bind c.socket ∷ []

module _ (S : Simulator) (c : Config) where
  open S use {State, EventId}

  abbrev pub Log : World S → Phase → Type 0
  Log w loaded = w.actions ≡ []
  Log w started = w.actions ≡ session c w.app.packets_sent
  Log w stopped = w.actions ≡ close c.socket ∷ session c w.app.packets_sent

  pub record IsTraced (w : World S) (p : Phase) : Type 0 where
    pub socket : w.app.socket ≡ some c.socket
    pub peer : w.app.peer ≡ c.peer
    pub packet_size : w.app.packet_size ≡ c.packet_size
    pub n_packets : w.app.n_packets ≡ c.n_packets
    pub log : Log w p

  -- SendPacket after its send changes the count and the events, and nothing else here.
  pub record Kept (w w' : World S) : Type 0 where
    pub socket : w'.app.socket ≡ w.app.socket
    pub peer : w'.app.peer ≡ w.app.peer
    pub packet_size : w'.app.packet_size ≡ w.app.packet_size
    pub n_packets : w'.app.n_packets ≡ w.app.n_packets
    pub actions : w'.actions ≡ w.actions
    pub counted : w'.app.packets_sent ≡ u32 (w.app.packets_sent + 1)

  pub count_packet-Kept : (w : World S) → Kept w (count_packet S w)
  unfolding count_packet
  count_packet-Kept w = elim (Bool-cases (ltb (u32 (w.app.packets_sent + 1)) w.app.n_packets)) [
    | inr done ↦ rw done (record {
      socket = refl;
      peer = refl;
      packet_size = refl;
      n_packets = refl;
      actions = refl;
      counted = refl;
    })
    | inl more ↦ elim (Bool-cases w.app.running) [
      | inr halted ↦
          rw (more, halted)
            (record {
              socket = refl;
              peer = refl;
              packet_size = refl;
              n_packets = refl;
              actions = refl;
              counted = refl;
            })
      | inl running ↦
          rw (more, running)
            (record {
              socket = refl;
              peer = refl;
              packet_size = refl;
              n_packets = refl;
              actions = refl;
              counted = refl;
            })
    ]
  ]

  -- One more packet on top of a session.
  pub sent-IsTraced :
      (w w' : World S)
      → w.app.packets_sent + 1 < 2 ^ 32
      → IsTraced w started
      → send_packet S w ≡ some w'
      → IsTraced w' started
  unfolding sent_world
  sent-IsTraced w w' small trace eq =
      rw (← (some-eq (sym (send_packet-eq S w trace.socket) ∙ eq))) (record {
        socket = kept.socket ∙ trace.socket;
        peer = kept.peer ∙ trace.peer;
        packet_size = kept.packet_size ∙ trace.packet_size;
        n_packets = kept.n_packets ∙ trace.n_packets;
        log = kept.actions ∙ (cc (trace.log, trace.packet_size) ∙ ap (session c) grown);
      })
    where
      kept : Kept (sent_world S w trace.socket) (count_packet S (sent_world S w trace.socket))
      kept = count_packet-Kept (sent_world S w trace.socket)

      grown :
          suc w.app.packets_sent ≡ (count_packet S (sent_world S w trace.socket)).app.packets_sent
      grown = omega (arith, kept.counted)

  start-IsTraced :
      (w w' : World S) → IsTraced w loaded → start_application S w ≡ some w' → IsTraced w' started
  unfolding starting
  start-IsTraced w w' trace eq =
      sent-IsTraced (starting S w trace.socket) w' (omega arith)
        (record {
          socket = trace.socket;
          peer = trace.peer;
          packet_size = trace.packet_size;
          n_packets = trace.n_packets;
          log = cc (trace.log, trace.peer);
        })
        (sym (start_application-eq S w trace.socket) ∙ eq)

  stop-IsTraced : (w : World S) → IsTraced w started → IsTraced (stop_application S w) stopped
  unfolding stop_application
  stop-IsTraced w trace = elim (Bool-cases (S.is_running w.app.send_event w.sim)) [
    | inl busy ↦
        rw (busy, trace.socket)
          (record {
            socket = refl;
            peer = trace.peer;
            packet_size = trace.packet_size;
            n_packets = trace.n_packets;
            log = ap (◌∷◌ (close c.socket)) trace.log;
          })
    | inr idle ↦
        rw (idle, trace.socket)
          (record {
            socket = refl;
            peer = trace.peer;
            packet_size = trace.packet_size;
            n_packets = trace.n_packets;
            log = ap (◌∷◌ (close c.socket)) trace.log;
          })
  ]

  elsewhere-Log : (w : World S) (p : Phase) (s : State) → Log w p → Log (record w { sim = s }) p
  elsewhere-Log w loaded s h = h
  elsewhere-Log w started s h = h
  elsewhere-Log w stopped s h = h

  Step-IsTraced :
      {w w' : World S} {p p' : Phase} → Step S w p w' p' → Inv S w p → IsTraced w p → IsTraced w' p'
  Step-IsTraced {w} {w'} (start e) inv trace = start-IsTraced w w' trace e
  Step-IsTraced {w} {w'} (fire {p} e m r eq) inv trace =
      let here : p ≡ started = fire-started S e inv m r in
      rw here (
        sent-IsTraced (expired S w e) w' (room (rw here at inv)) (expired-trace (rw here at trace))
          eq)
    where
      room : Inv S w started → w.app.packets_sent + 1 < 2 ^ 32
      room i = omega (arith, fire-left S e i m r, i.small)

      expired-trace : IsTraced w started → IsTraced (expired S w e) started
      expired-trace t = record {
        socket = t.socket;
        peer = t.peer;
        packet_size = t.packet_size;
        n_packets = t.n_packets;
        log = t.log;
      }
  Step-IsTraced {w} stop inv trace = stop-IsTraced w trace
  Step-IsTraced {w} (elsewhere {p} s same) inv trace = record {
    socket = trace.socket;
    peer = trace.peer;
    packet_size = trace.packet_size;
    n_packets = trace.n_packets;
    log = elsewhere-Log w p s trace.log;
  }

  -- In every reachable state the calls on the socket are exactly those of a session.
  pub Reach-IsTraced :
      (s : State) {w : World S} {p : Phase}
      → c.n_packets < 2 ^ 32
      → Reach S (install S c.socket c.peer c.packet_size c.n_packets c.data_rate s) w p
      → IsTraced w p
  unfolding install setup
  Reach-IsTraced s small here = record {
    socket = refl;
    peer = refl;
    packet_size = refl;
    n_packets = refl;
    log = refl;
  }
  Reach-IsTraced s small (next r st) =
      Step-IsTraced st
        (Reach-Inv S (install-Inv S c.socket c.peer c.packet_size c.n_packets c.data_rate s small)
          r)
        (Reach-IsTraced s small r)
