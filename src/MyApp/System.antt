-- ===== src/MyApp/System.antt =====
-- The life of one `MyApp` under the scheduler: StartApplication is called once, then
-- StopApplication once; in between and afterwards SendPacket is called for each of its events that
-- expires, and other parts of the simulation run in any order.
use mathlib.Core.List.{Memᴰ}
use computer_networks_lab.Prelude.{ℕ, ◌≡◌, true, some, []}
use computer_networks_lab.MyApp.Simulator.{Simulator}
use computer_networks_lab.MyApp.App.{
  World, my_app, setup, send_packet, start_application, stop_application,
}

pub data Phase : Type 0 where
  loaded started stopped : Phase

module _ (S : Simulator) where
  open S use {State, EventId, is_running, expire}

  abbrev pub expired : World S → EventId → World S
  expired w e = record w { sim = expire e w.sim }

  -- An application as main leaves it: set up, with no call made and no event of its own.
  unfoldable pub install : ℕ → ℕ → ℕ → ℕ → ℕ → State → World S
  install socket address packet_size n_packets data_rate s = record {
    app = setup S (my_app S) (some socket) address packet_size n_packets data_rate;
    sim = s;
    actions = [];
    callbacks = [];
  }

  pub data Step (w : World S) : Phase → World S → Phase → Type 0 where
    start : {w' : World S} → start_application S w ≡ some w' → Step w loaded w' started
    fire :
        {p : Phase} {w' : World S} (e : EventId)
        → Memᴰ e w.callbacks
        → is_running e w.sim ≡ true
        → send_packet S (expired w e) ≡ some w'
        → Step w p w' p
    stop : Step w started (stop_application S w) stopped
    elsewhere :
        {p : Phase} (s : State)
        → ((e : EventId) → Memᴰ e w.callbacks → is_running e s ≡ is_running e w.sim)
        → Step w p (record w { sim = s }) p

  pub data Reach (init : World S) : World S → Phase → Type 0 where
    here : Reach init init loaded
    next : {w w' : World S} {p p' : Phase} → Reach init w p → Step w p w' p' → Reach init w' p'
