-- ===== src/Ns3/Echo.antt =====
-- The scripts with the UDP echo applications: main of ns3/first.cc (with first-doc.cc, first-val.cc
-- and scratch/first.cc), ns3/udp-echo.cc, ns3/netanim.cc, ns3/packet-sink.cc and ns3/first-ipv6.cc. The
-- server is container 0 and the client container 1.
use computer_networks_lab.Prelude.{
  ℕ, List, [], ◌∷◌, ◌++◌, ◌-◌, Bool, false, if◌then◌else◌, Option, none, some, drop, length,
  get_elem?,
}
use computer_networks_lab.Libc.Text.{Bytes, codes}
use computer_networks_lab.Ns3.Wires.{same_bytes}
use computer_networks_lab.Ns3.Script.{
  tcp, node, Address, interface, Application, packet_sink_at, echo_server, echo_client, create,
  data_rate, delay, install_link, install_stack, set_stack, assign, install, start, stop, observe,
  run, destroy, Script,
}

-- Two nodes on one link.
abbrev link : Script
link =
    create 2
    ∷ data_rate 0 (codes "5Mbps")
    ∷ delay 0 (codes "2ms")
    ∷ install_link 0 (node 0) (node 1)
    ∷ []

abbrev addressed : Script
addressed =
    link
    ++ (install_stack ∷ assign (codes "10.1.1.0") (codes "255.255.255.0") (node 0) (node 1) ∷ [])

-- What is installed on node 1, and the client on node 0.
abbrev exchange : Application → Address → Script
exchange server remote =
    install 0 (node 1) server
    ∷ start 0 1
    ∷ stop 0 10
    ∷ install 1 (node 0) (echo_client remote 9 1 1 1024)
    ∷ start 1 2
    ∷ stop 1 10
    ∷ []

abbrev logs : Bytes → Script
logs second = observe (codes "UdpEchoClientApplication") ∷ observe second ∷ []

abbrev server_log : Bytes
server_log = codes "UdpEchoServerApplication"

-- first.cc, with the variable tracing after cmd.Parse.
unfoldable pub first : Bool → Script
first tracing =
    logs server_log
    ++ (addressed
        ++ (exchange (echo_server 9) (interface (node 0) (node 1) 1)
            ++ ((if tracing then observe (codes "first.tr") ∷ observe (codes "first") ∷ [] else [])
                ++ (run ∷ destroy ∷ []))))

unfoldable pub first_doc : Script
unfolding first
first_doc = first false

-- first-val.cc, without the Destroy.
unfoldable pub first_val : Script
first_val =
    logs server_log
    ++ (addressed ++ (exchange (echo_server 9) (interface (node 0) (node 1) 1) ++ (run ∷ [])))

-- scratch/first.cc, where the ASCII trace is not optional.
unfoldable pub scratch_first : Script
scratch_first =
    logs server_log
    ++ (addressed
        ++ (exchange (echo_server 9) (interface (node 0) (node 1) 1)
            ++ (observe (codes "first.tr") ∷ run ∷ destroy ∷ [])))

unfoldable pub udp_echo : Script
udp_echo =
    addressed
    ++ (exchange (echo_server 9) (interface (node 0) (node 1) 1)
        ++ (observe (codes "udp-echo.xml") ∷ run ∷ destroy ∷ []))

unfoldable pub netanim : Script
netanim =
    logs server_log
    ++ (addressed
        ++ (exchange (echo_server 9) (interface (node 0) (node 1) 1)
            ++ (observe (codes "animation.xml") ∷ run ∷ destroy ∷ [])))

unfoldable pub packet_sink_main : Script
packet_sink_main =
    observe (codes "UdpPacketSinkApplication") ∷ addressed
    ++ (exchange (packet_sink_at tcp (interface (node 0) (node 1) 1))
          (interface (node 0) (node 1) 1)
        ++ (run ∷ destroy ∷ []))

-- The containers in scope, the innermost declaration first.
abbrev Scope : Type 0
Scope = List (Bytes × List Address)

abbrev container : Bytes → Scope → List Address
container name [] = []
container name ((n, addresses) ∷ scope) =
    if same_bytes name n then addresses else container name scope

-- The end of a block: its own declarations are gone.
abbrev leave : Scope → Scope → Scope
leave outer inner = drop (length inner - length outer) inner

abbrev pub v6 : Bytes
v6 = codes "v6"

abbrev pub v4 : Bytes
v4 = codes "v4"

abbrev interfaces_v6 : Bytes
interfaces_v6 = codes "interfacesV6"

abbrev interfaces_v4 : Bytes
interfaces_v4 = codes "interfacesV4"

-- A branch on the version: its calls, without the stack of the other version, and the scope after
-- it. It declares the container of its Assign, with a name that the outer block has, too.
abbrev branch : ℕ → Bytes → Bytes → Bytes → Scope → Script × Scope
branch without base mask name scope = (
  set_stack without false ∷ install_stack ∷ assign base mask (node 0) (node 1) ∷ [],
  leave scope ((name, interface (node 0) (node 1) 0 ∷ interface (node 0) (node 1) 1 ∷ []) ∷ scope),
)

unfoldable pub addressing : Bytes → Scope → Script × Scope
addressing ip scope =
    if same_bytes ip v6
    then branch 4 (codes "2001:db8::") (codes "64") interfaces_v6 scope
    else (if same_bytes ip v4
        then branch 6 (codes "10.1.1.0") (codes "255.255.255.0") interfaces_v4 scope
        else ([], scope))

-- The address given to the client; `none` is GetAddress of an element that is not there.
unfoldable pub remote : Bytes → Scope → Option Address
remote ip scope =
    get_elem? (container (if same_bytes ip v6 then interfaces_v6 else interfaces_v4) scope) 1

abbrev with_remote : Bytes → Script × Scope → Option Address → Option Script
with_remote ip made none = none
with_remote ip made (some to) =
    some (
      logs server_log
      ++ (link ++ (made.0 ++ (exchange (echo_server 9) to ++ (run ∷ destroy ∷ [])))))

-- first-ipv6.cc, with the variable ip after cmd.Parse; `none` is undefined behaviour.
unfoldable pub first_ipv6 : Bytes → Option Script
unfolding addressing remote
first_ipv6 ip =
    let made = addressing ip ((interfaces_v4, []) ∷ (interfaces_v6, []) ∷ []) in
    with_remote ip made (remote ip made.1)
