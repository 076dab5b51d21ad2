-- ===== src/Examples/Sender.antt =====
-- The paced sender: three packets of 1040 bytes at 1 Mbps, as in ns3/fifth.cc with fewer packets.
use mathlib.Core.List.{Memᴰ}
use computer_networks_lab.Prelude.{
  ℕ, ◌^◌, ◌≤◌, ◌<◌, max, ◌≡◌, refl, ◌↔◌, true, false, none, some, arith,
}
use computer_networks_lab.MyApp.Simulator.{agenda, no_events}
use computer_networks_lab.MyApp.App.{World, setup, start_application, stop_application}
use computer_networks_lab.MyApp.System.{
  started, stopped, install, start, stop, elsewhere, here, next,
}
use computer_networks_lab.MyApp.Trace.{Config, session, Log}
use computer_networks_lab.MyApp.Delivery.{
  session-Log, stopped_silent, pending_iff, drain, drain_delivers, Reached,
}

abbrev config : Config
config = record { socket = 3; peer = 7; packet_size = 1040; n_packets = 3; data_rate = 1_000_000 }

abbrev before : World agenda
before = install agenda 3 7 1040 3 1_000_000 no_events

-- The world after StartApplication.
abbrev running : World agenda
unfolding install start_application
running = elim (start_application agenda before) [ none ↦ before | some w ↦ w ]

small : config.n_packets < 2 ^ 32
small = omega arith

running-Reached : Reached agenda config no_events small running started
unfolding install start_application setup
running-Reached = next here (start refl)

drain_delivers_example :
    (w : World agenda) × (drain agenda config no_events small 2 running ≡ some w)
    × Reached agenda config no_events small w started
    × (w.actions ≡ session config (max 1 config.n_packets))
    × (agenda.is_running w.app.send_event w.sim ≡ false)
unfolding install start_application setup
drain_delivers_example =
    drain_delivers agenda config no_events small 2 running running-Reached (omega arith)

session-Log_example : Log agenda config running started × (running.app.packets_sent ≤ max 1 3)
session-Log_example = session-Log agenda config no_events small running-Reached

pending_iff_example :
    ((agenda.is_running running.app.send_event running.sim ≡ true)
      ↔ (running.app.packets_sent < config.n_packets))
    × ((e : ℕ)
        → Memᴰ e running.callbacks
        → agenda.is_running e running.sim ≡ true
        → e ≡ running.app.send_event)
pending_iff_example = pending_iff agenda config no_events small running-Reached

-- The application stopped in the middle, while other events go on.
abbrev halted : World agenda
halted = stop_application agenda running

halted-Reached : Reached agenda config no_events small halted stopped
halted-Reached = next running-Reached stop

stopped_silent_example : (halted.actions ≡ halted.actions) × (stopped ≡ stopped)
stopped_silent_example =
    stopped_silent agenda config no_events small halted-Reached (elsewhere halted.sim (λ e m. refl))
