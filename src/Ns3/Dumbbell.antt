-- ===== src/Ns3/Dumbbell.antt =====
-- main of ns3/dumbbell.cc: three flows over one bottleneck. `Args` holds what the variables of main
-- are after cmd.Parse.
use computer_networks_lab.Prelude.{ℕ, [], ◌∷◌, ◌++◌, ◌+◌, Bool, false, if◌then◌else◌}
use computer_networks_lab.Libc.Text.{Bytes, codes}
use computer_networks_lab.Ns3.Script.{
  Transport, tcp, udp, node, interface, packet_sink, my_app, create, data_rate, delay, install_link,
  install_stack, assign, populate_routes, install, start, stop, observe, stop_simulator, run,
  destroy, Script,
}

abbrev mask_24 : Bytes
mask_24 = codes "255.255.255.0"

pub record Args : Type 0 where
  pub lat : Bytes
  pub rate : Bytes
  pub enable_flow_monitor : Bool

abbrev pub default_args : Args
default_args = record { lat = codes "2ms"; rate = codes "500kb/s"; enable_flow_monitor = false }

-- One helper makes all links; its attributes are changed before the last.
unfoldable pub channels : Args → Script
channels args =
    create 8
    ∷ install_stack
    ∷ data_rate 0 args.rate
    ∷ delay 0 args.lat
    ∷ install_link 0 (node 0) (node 3)
    ∷ install_link 0 (node 1) (node 3)
    ∷ install_link 0 (node 2) (node 3)
    ∷ install_link 0 (node 5) (node 4)
    ∷ install_link 0 (node 6) (node 4)
    ∷ install_link 0 (node 7) (node 4)
    ∷ data_rate 0 (codes "10Mbps")
    ∷ delay 0 (codes "1us")
    ∷ install_link 0 (node 3) (node 4)
    ∷ []

unfoldable pub addresses : Script
addresses =
    assign (codes "10.1.1.0") mask_24 (node 0) (node 3)
    ∷ assign (codes "10.1.2.0") mask_24 (node 1) (node 3)
    ∷ assign (codes "10.1.3.0") mask_24 (node 2) (node 3)
    ∷ assign (codes "10.1.4.0") mask_24 (node 3) (node 4)
    ∷ assign (codes "10.1.5.0") mask_24 (node 5) (node 4)
    ∷ assign (codes "10.1.6.0") mask_24 (node 6) (node 4)
    ∷ assign (codes "10.1.7.0") mask_24 (node 7) (node 4)
    ∷ populate_routes
    ∷ []

-- A sink on node `to` and the application of node `from`: containers `apps` and `apps + 1`.
abbrev flow : Args → ℕ → Transport → (port from to first : ℕ) → Script
flow args apps t port from to first =
    install apps (node to) (packet_sink t port)
    ∷ start apps 0
    ∷ stop apps 30
    ∷ install (apps + 1) (node from)
        (my_app t (interface (node to) (node 4) 0) port 1040 100_000 args.rate)
    ∷ start (apps + 1) first
    ∷ stop (apps + 1) 30
    ∷ []

unfoldable pub applications : Args → Script
applications args =
    flow args 0 tcp 8080 0 5 1 ++ (flow args 2 tcp 10_000 1 6 6 ++ flow args 4 udp 6000 2 7 5)

unfoldable pub simulation : Args → Script
simulation args =
    (if args.enable_flow_monitor then observe (codes "FlowMonitor") ∷ [] else [])
    ++ (stop_simulator 100
          ∷ run
          ∷ (if args.enable_flow_monitor then observe (codes "lab-2.flowmon") ∷ [] else [])
        ++ (destroy ∷ []))

unfoldable pub dumbbell_main : Args → Script
unfolding channels addresses applications simulation
dumbbell_main args = channels args ++ (addresses ++ (applications args ++ simulation args))
