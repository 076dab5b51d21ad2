-- ===== src/Ns3/Script.antt =====
-- What a script says to ns-3 before and around Simulator::Run, as a list of calls in the order of
-- the source. ns-3 is not in the repository: a call only records its arguments. A container of
-- devices or interfaces is named by the two ends of its link, in the order of its elements; a
-- container of applications by a number of the script's own. Times are in seconds.
use computer_networks_lab.Prelude.{ℕ, List, Bool}
use computer_networks_lab.Libc.Text.{Bytes}

pub data Transport : Type 0 where
  tcp udp : Transport

-- A node of a NodeContainer, or of the star and the dumbbell of the layout module.
pub data Node : Type 0 where
  node : (i : ℕ) → Node
  hub : Node
  spoke left right : (i : ℕ) → Node

-- An address that ns-3 gives out: element `index` of the interfaces of a link, GetHubIpv4Address (i)
-- or GetLeftIpv4Address (i).
pub data Address : Type 0 where
  interface : (a b : Node) (index : ℕ) → Address
  hub_address left_address : (i : ℕ) → Address

pub data Application : Type 0 where
  packet_sink : Transport → (port : ℕ) → Application
  -- A sink that is bound to an address without a port.
  packet_sink_at : Transport → Address → Application
  my_app : Transport → Address → (port packet_size n_packets : ℕ) (data_rate : Bytes) → Application
  bulk_send : Transport → Address → (port max_bytes : ℕ) → Application
  on_off : Transport → Address → (port : ℕ) (on_time off_time : Bytes) → Application
  echo_server : (port : ℕ) → Application
  echo_client : Address → (port max_packets interval packet_size : ℕ) → Application

-- A value given to Config::SetDefault.
pub data Value : Type 0 where
  text : Bytes → Value
  number : ℕ → Value

pub data Command : Type 0 where
  set_default : (name : Bytes) → Value → Command
  create : (nodes : ℕ) → Command
  -- SetDeviceAttribute ("DataRate", …), SetChannelAttribute ("Delay", …) and Install of a helper.
  data_rate delay : (helper : ℕ) (value : Bytes) → Command
  install_link : (helper : ℕ) (a b : Node) → Command
  -- The layout helpers, and their AssignIpv4Addresses.
  star : (spokes helper : ℕ) → Command
  dumbbell : (left_leaves right_leaves leaf_helper router_helper : ℕ) → Command
  assign_layout : (bases : List Bytes) (mask : Bytes) → Command
  -- SetIpv4StackInstall and SetIpv6StackInstall
  set_stack : (version : ℕ) (installed : Bool) → Command
  install_stack : Command
  receive_errors : (a b : Node) (index : ℕ) (rate : Bytes) → Command
  queue_disc : (kind : Bytes) (a b : Node) → Command
  -- SetBase, and Assign to the devices of a link.
  assign : (base mask : Bytes) (a b : Node) → Command
  populate_routes : Command
  install : (apps : ℕ) → Node → Application → Command
  start stop : (apps seconds : ℕ) → Command
  -- What observes or prints: logs, traces, monitors, the animation.
  observe : (what : Bytes) → Command
  stop_simulator : (seconds : ℕ) → Command
  run destroy : Command
  -- NS_FATAL_ERROR
  fatal : (text : Bytes) → Command

abbrev pub Script : Type 0
Script = List Command
