-- ===== src/MyApp/App.antt =====
-- The class `MyApp` of ns3/fifth.cc: its fields and its methods. A method takes the application
-- together with the scheduler and the calls made on its socket so far, and `none` is a call through
-- a null socket.
use computer_networks_lab.Prelude.{
  ℕ, ◌+◌, ◌*◌, ◌%◌, ◌^◌, Bool, true, false, Option, none, some, List, ◌∷◌, ltb, if◌then◌else◌,
}
use computer_networks_lab.MyApp.Simulator.{Delay, Simulator}

abbrev pub u32 : ℕ → ℕ
u32 n = n % 2 ^ 32

-- A socket and an address are handles. What the application asks of its socket:
pub data Action : Type 0 where
  bind : (socket : ℕ) → Action
  connect : (socket peer : ℕ) → Action
  send : (socket size : ℕ) → Action
  close : (socket : ℕ) → Action

pub record MyApp (E : Type 0) : Type 0 where
  pub socket : Option ℕ
  pub peer : ℕ
  pub packet_size : ℕ  -- uint32_t
  pub n_packets : ℕ  -- uint32_t
  pub data_rate : ℕ
  pub send_event : E
  pub running : Bool
  pub packets_sent : ℕ  -- uint32_t

-- `actions` has the newest call first. `callbacks` holds the events that were scheduled to call
-- SendPacket on this application, the newest first.
pub record World (S : Simulator) : Type 0 where
  pub app : MyApp S.EventId
  pub sim : S.State
  pub actions : List Action
  pub callbacks : List S.EventId

infixl 5 ◌>>=◌
abbrev pub ◌>>=◌ {ℓ κ} : {A : Type ℓ} {B : Type κ} → Option A → (A → Option B) → Option B
none >>= f = none
some a >>= f = f a

module _ (S : Simulator) where
  open S use {State, EventId, null, is_running, schedule, cancel}

  -- The constructor.
  unfoldable pub my_app : MyApp EventId
  my_app = record {
    socket = none;
    peer = 0;
    packet_size = 0;
    n_packets = 0;
    data_rate = 0;
    send_event = null;
    running = false;
    packets_sent = 0;
  }

  unfoldable pub setup : MyApp EventId → Option ℕ → ℕ → ℕ → ℕ → ℕ → MyApp EventId
  setup a socket address packet_size n_packets data_rate = record a {
    socket = socket;
    peer = address;
    packet_size = packet_size;
    n_packets = n_packets;
    data_rate = data_rate;
  }

  -- m_packetSize * 8 is computed in uint32_t before it is divided.
  unfoldable pub t_next : MyApp EventId → Delay
  t_next a = record { bits = u32 (a.packet_size * 8); bit_rate = a.data_rate }

  abbrev scheduled : World S → EventId × State → World S
  scheduled w (e, s) = record w {
    app = record w.app { send_event = e };
    sim = s;
    callbacks = e ∷ w.callbacks;
  }

  unfoldable pub schedule_tx : World S → World S
  schedule_tx w = if w.app.running then scheduled w (schedule (t_next w.app) w.sim) else w

  abbrev pub acted : Action → World S → World S
  acted x w = record w { actions = x ∷ w.actions }

  -- What send_packet does after the send: `++m_packetsSent < m_nPackets`.
  unfoldable pub count_packet : World S → World S
  unfolding schedule_tx
  count_packet w =
      let w' : World S = record w {
        app = record w.app { packets_sent = u32 (w.app.packets_sent + 1) };
      } in
      if ltb w'.app.packets_sent w'.app.n_packets then schedule_tx w' else w'

  unfoldable pub send_packet : World S → Option (World S)
  unfolding count_packet
  send_packet w = do
    socket ← w.app.socket
    some (count_packet (acted (Action.send socket w.app.packet_size) w))

  unfoldable pub start_application : World S → Option (World S)
  unfolding send_packet
  start_application w = do
    let w' : World S = record w { app = record w.app { running = true; packets_sent = 0 } }
    socket ← w'.app.socket
    send_packet (acted (Action.connect socket w'.app.peer) (acted (Action.bind socket) w'))

  abbrev pub close_socket : Option ℕ → World S → World S
  close_socket none w = w
  close_socket (some socket) w = acted (Action.close socket) w

  unfoldable pub stop_application : World S → World S
  stop_application w =
      let w' : World S = record w { app = record w.app { running = false } } in
      let w'' : World S =
        if is_running w'.app.send_event w'.sim
        then record w' { sim = cancel w'.app.send_event w'.sim }
        else w' in
      close_socket w''.app.socket w''
