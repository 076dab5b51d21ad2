-- ===== src/Ns3/Paced.antt =====
-- main of ns3/fifth.cc and of scratch/fifth.cc, whose application is a MyApp.
use computer_networks_lab.Prelude.{[], ◌∷◌, ◌++◌}
use computer_networks_lab.Libc.Text.{codes}
use computer_networks_lab.Ns3.Script.{
  tcp, node, interface, packet_sink, my_app, create, data_rate, delay, install_link, install_stack,
  receive_errors, assign, install, start, stop, observe, stop_simulator, run, destroy, Script,
}

-- What both mains begin with. The sink is container 0, the application container 1.
abbrev paced_flow : Script
paced_flow =
    create 2
    ∷ data_rate 0 (codes "5Mbps")
    ∷ delay 0 (codes "2ms")
    ∷ install_link 0 (node 0) (node 1)
    ∷ receive_errors (node 0) (node 1) 1 (codes "0.00001")
    ∷ install_stack
    ∷ assign (codes "10.1.1.0") (codes "255.255.255.252") (node 0) (node 1)
    ∷ install 0 (node 1) (packet_sink tcp 8080)
    ∷ start 0 0
    ∷ stop 0 20
    ∷ observe (codes "CongestionWindow")
    ∷ install 1 (node 0) (my_app tcp (interface (node 0) (node 1) 1) 8080 1040 1000 (codes "1Mbps"))
    ∷ start 1 1
    ∷ stop 1 20
    ∷ []

-- main of ns3/fifth.cc
unfoldable pub fifth : Script
fifth = paced_flow ++ observe (codes "PhyRxDrop") ∷ stop_simulator 20 ∷ run ∷ destroy ∷ []

-- main of scratch/fifth.cc, where the trace of drops is commented out.
unfoldable pub scratch_fifth : Script
scratch_fifth = paced_flow ++ stop_simulator 20 ∷ run ∷ destroy ∷ []
