-- ===== src/Ns3/Check.antt =====
-- What makes the calls of a script fit together, by what ns-3 documents of them: an attribute keeps
-- the last value it is given, an address is given to the device of a link whose nodes have a stack,
-- and what is sent arrives at an application that listens there at the time.
use computer_networks_lab.Prelude.{
  ℕ, List, [], ◌∷◌, Option, none, some, Bool, true, false, ◌&&◌, ◌||◌, ◌≡◌, ◌==◌, leb,
  if◌then◌else◌,
}
use computer_networks_lab.Libc.Text.{Bytes}
use computer_networks_lab.Ns3.Script.{
  Transport, tcp, udp, Node, hub, left, Address, interface, hub_address, left_address, Application,
  packet_sink, echo_server, Command, data_rate, delay, install_link, install, start, stop, Script,
}
use computer_networks_lab.Ns3.Wires.{no_wires, wired_from, same_node, target}

abbrev pub same_transport : Transport → Transport → Bool
same_transport tcp tcp = true
same_transport udp udp = true
same_transport a b = false

-- The node that an address belongs to.
abbrev pub owner : Address → Node
owner (interface a b index) = if index == 0 then a else b
owner (hub_address i) = hub
owner (left_address i) = left i

abbrev pub listens : Transport → ℕ → Application → Bool
listens t port (packet_sink t' port') = same_transport t t' && (port == port')
listens udp port (echo_server port') = port == port'
listens t port app = false

-- The start time of a container after the calls, from the one before them.
abbrev pub start_time : ℕ → ℕ → Script → ℕ
start_time apps t [] = t
start_time apps t (start apps' t' ∷ s) = start_time apps (if apps == apps' then t' else t) s
start_time apps t (c ∷ s) = start_time apps t s

-- The stop time; `none` is never.
abbrev pub stop_time : ℕ → Option ℕ → Script → Option ℕ
stop_time apps t [] = t
stop_time apps t (stop apps' t' ∷ s) = stop_time apps (if apps == apps' then some t' else t) s
stop_time apps t (c ∷ s) = stop_time apps t s

abbrev pub no_later : Option ℕ → Option ℕ → Bool
no_later a none = true
no_later none (some b) = false
no_later (some a) (some b) = leb a b

abbrev pub any : (Command → Bool) → Script → Bool
any p [] = false
any p (c ∷ s) = p c || any p s

abbrev pub every : (Command → Bool) → Script → Bool
every p [] = true
every p (c ∷ s) = p c && every p s

module _ (script : Script) where
  -- The call installs on `n` a listener that is there whenever container `apps` runs.
  abbrev pub serves : ℕ → Node → Transport → ℕ → Command → Bool
  serves apps n t port (install apps' n' app) =
      same_node n n'
      && (listens t port app
          && (leb (start_time apps' 0 script) (start_time apps 0 script)
              && no_later (stop_time apps none script) (stop_time apps' none script)))
  serves apps n t port c = false

  abbrev pub answered_target : ℕ → Option (Transport × Address × ℕ) → Bool
  answered_target apps none = true
  answered_target apps (some (t, to, port)) = any (serves apps (owner to) t port) script

  abbrev pub answered : Command → Bool
  answered (install apps n app) = answered_target apps (target app)
  answered c = true

-- Every application that sends has a listener at its target, with its transport and port, from its
-- start to its stop.
unfoldable pub received : Script → Bool
received script = every (answered script) script

-- A script whose calls are all allowed, and whose applications are all heard.
pub record IsSound (script : Script) : Type 0 where
  pub is_wired : wired_from no_wires script ≡ true
  pub is_received : received script ≡ true

-- The data rate and the delay of each link, as its helper had them at its Install.
pub record Link : Type 0 where
  pub from : Node
  pub to : Node
  pub rate : Bytes
  pub latency : Bytes

-- The last values given to a helper, the newest first.
abbrev pub latest : ℕ → List (ℕ × Bytes) → Bytes
latest helper [] = []
latest helper ((h, value) ∷ values) = if helper == h then value else latest helper values

unfoldable pub links_from : List (ℕ × Bytes) → List (ℕ × Bytes) → Script → List Link
links_from rates delays [] = []
links_from rates delays (data_rate helper value ∷ s) = links_from ((helper, value) ∷ rates) delays s
links_from rates delays (delay helper value ∷ s) = links_from rates ((helper, value) ∷ delays) s
links_from rates delays (install_link helper a b ∷ s) =
    record { from = a; to = b; rate = latest helper rates; latency = latest helper delays }
    ∷ links_from rates delays s
links_from rates delays (c ∷ s) = links_from rates delays s
