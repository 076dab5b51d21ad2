-- ===== src/Ns3/Wires.antt =====
-- What a script has set up at each of its calls, and what ns-3 requires of it there.
use computer_networks_lab.Prelude.{
  ℕ, List, [], ◌∷◌, Option, none, some, Bool, true, false, ◌&&◌, ◌||◌, not, ◌==◌, ◌+◌, ltb, leb,
}
use computer_networks_lab.Libc.Text.{Bytes}
use computer_networks_lab.Ns3.Script.{
  Transport, udp, Node, node, hub, spoke, left, right, Address, interface, hub_address,
  left_address, Application, my_app, bulk_send, on_off, echo_client, Command, create, star,
  dumbbell, assign_layout, populate_routes, run, install_link, install_stack, queue_disc, assign,
  install, fatal, Script,
}

abbrev pub same_node : Node → Node → Bool
same_node (node i) (node j) = i == j
same_node hub hub = true
same_node (spoke i) (spoke j) = i == j
same_node (left i) (left j) = i == j
same_node (right i) (right j) = i == j
same_node a b = false

abbrev pub same_bytes : Bytes → Bytes → Bool
same_bytes [] [] = true
same_bytes (a ∷ s) (b ∷ t) = (a == b) && same_bytes s t
same_bytes s t = false

-- Where an application sends to.
abbrev pub target : Application → Option (Transport × Address × ℕ)
target (my_app t to port packet_size n_packets rate) = some (t, to, port)
target (bulk_send t to port max_bytes) = some (t, to, port)
target (on_off t to port on_time off_time) = some (t, to, port)
target (echo_client to port max_packets interval packet_size) = some (udp, to, port)
target app = none

-- What has been set up so far: the nodes, the links, those with an address, and the subnets in use.
-- `far` says that an application sends to an address on a link that its node does not have.
pub record Wires : Type 0 where
  pub nodes : ℕ
  pub has_star : Bool
  pub spokes : ℕ
  pub lefts : ℕ
  pub rights : ℕ
  pub laid : Bool
  pub stack : Bool
  pub links : List (Node × Node)
  pub addressed : List (Node × Node)
  pub bases : List Bytes
  pub far : Bool
  pub routed : Bool

abbrev pub no_wires : Wires
no_wires = record {
  nodes = 0;
  has_star = false;
  spokes = 0;
  lefts = 0;
  rights = 0;
  laid = false;
  stack = false;
  links = [];
  addressed = [];
  bases = [];
  far = false;
  routed = false;
}

abbrev pub has_link : Node → Node → List (Node × Node) → Bool
has_link a b [] = false
has_link a b ((c, d) ∷ links) = (same_node a c && same_node b d) || has_link a b links

abbrev pub has_base : Bytes → List Bytes → Bool
has_base base [] = false
has_base base (b ∷ bases) = same_bytes base b || has_base base bases

-- Every link has been given its addresses.
abbrev pub all_addressed : List (Node × Node) → List (Node × Node) → Bool
all_addressed [] addressed = true
all_addressed ((a, b) ∷ links) addressed = has_link a b addressed && all_addressed links addressed

-- The node has been made.
abbrev pub exists : Node → Wires → Bool
exists (node i) w = ltb i w.nodes
exists hub w = w.has_star
exists (spoke i) w = ltb i w.spokes
exists (left i) w = ltb i w.lefts
exists (right i) w = ltb i w.rights

-- The address has been given out.
abbrev pub is_given : Address → Wires → Bool
is_given (interface a b index) w = leb index 1 && has_link a b w.addressed
is_given (hub_address i) w = w.laid && ltb i w.spokes
is_given (left_address i) w = w.laid && ltb i w.lefts

abbrev pub knows_target : Option (Transport × Address × ℕ) → Wires → Bool
knows_target none w = true
knows_target (some (t, to, port)) w = is_given to w

-- The address is on a link of the node.
abbrev pub is_near : Node → Address → Bool
is_near n (interface a b index) = same_node n a || same_node n b
is_near n (hub_address i) = same_node n hub || same_node n (spoke i)
is_near n (left_address i) = same_node n (left i)

abbrev pub sends_far : Node → Option (Transport × Address × ℕ) → Bool
sends_far n none = false
sends_far n (some (t, to, port)) = not (is_near n to)

abbrev pub wire : Command → Wires → Wires
wire (create n) w = record w { nodes = w.nodes + n }
wire (star n helper) w = record w { has_star = true; spokes = n }
wire (dumbbell n m leaf router) w = record w { lefts = n; rights = m }
wire (assign_layout bases mask) w = record w { laid = true }
wire install_stack w = record w { stack = true }
wire (install_link helper a b) w = record w { links = (a, b) ∷ w.links }
wire (assign base mask a b) w = record w {
  addressed = (a, b) ∷ w.addressed;
  bases = base ∷ w.bases;
}
wire populate_routes w = record w { routed = true }
wire (install apps n app) w = record w { far = sends_far n (target app) || w.far }
wire c w = w

-- What ns-3 requires at a call: the nodes are there; a new subnet for a link that is there, once, on
-- nodes with a stack and before the routes; a queue disc before its address; an application that
-- sends to an address that has been given out; and a run in which every link has its addresses, and
-- there are routes if an application sends beyond the links of its node.
abbrev pub allowed : Command → Wires → Bool
allowed (install_link helper a b) w = exists a w && exists b w
allowed (assign_layout bases mask) w = w.stack
allowed (assign base mask a b) w =
    w.stack
    && (not w.routed
        && (has_link a b w.links
            && (not (has_link a b w.addressed) && not (has_base base w.bases))))
allowed (queue_disc kind a b) w =
    w.stack && (has_link a b w.links && not (has_link a b w.addressed))
allowed (install apps n app) w = w.stack && (exists n w && knows_target (target app) w)
allowed run w = all_addressed w.links w.addressed && (not w.far || w.routed)
allowed (fatal message) w = false
allowed c w = true

unfoldable pub wired_from : Wires → Script → Bool
wired_from w [] = true
wired_from w (c ∷ s) = allowed c w && wired_from (wire c w) s
