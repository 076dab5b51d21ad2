-- ===== src/Ns3/Bulk.antt =====
-- main of ns3/tcp-bulk-send.cc (also in scratch/) and ns3/bulk-send.cc. The source is container 0
-- and the sink container 1.
use computer_networks_lab.Prelude.{ℕ, [], ◌∷◌, ◌++◌, Bool, if◌then◌else◌}
use computer_networks_lab.Libc.Text.{codes}
use computer_networks_lab.Ns3.Script.{
  tcp, node, interface, packet_sink, bulk_send, create, data_rate, delay, install_link,
  install_stack, assign, install, start, stop, observe, stop_simulator, run, destroy, Script,
}

-- Two nodes on one link, with addresses.
abbrev pair : Script
pair =
    create 2
    ∷ data_rate 0 (codes "500Kbps")
    ∷ delay 0 (codes "5ms")
    ∷ install_link 0 (node 0) (node 1)
    ∷ install_stack
    ∷ assign (codes "10.1.1.0") (codes "255.255.255.0") (node 0) (node 1)
    ∷ []

-- The variables tracing and maxBytes after cmd.Parse.
unfoldable pub tcp_bulk_send : Bool → ℕ → Script
tcp_bulk_send tracing max_bytes =
    pair
    ++ (install 0 (node 0) (bulk_send tcp (interface (node 0) (node 1) 1) 9 max_bytes)
          ∷ start 0 0
          ∷ stop 0 10
          ∷ install 1 (node 1) (packet_sink tcp 9)
          ∷ start 1 0
          ∷ stop 1 10
          ∷ (if tracing
              then observe (codes "tcp-bulk-send.tr") ∷ observe (codes "tcp-bulk-send") ∷ []
              else [])
        ++ (observe (codes "FlowMonitor")
            ∷ stop_simulator 10
            ∷ run
            ∷ observe (codes "flow-monitor.xml")
            ∷ destroy
            ∷ observe (codes "Total Bytes Received: ")
            ∷ []))

-- sinkApps.Start is called twice.
unfoldable pub bulk_send_main : Script
bulk_send_main =
    create 2
    ∷ delay 0 (codes "5ms")
    ∷ data_rate 0 (codes "500Kbps")
    ∷ install_link 0 (node 0) (node 1)
    ∷ install_stack
    ∷ assign (codes "10.1.1.0") (codes "255.255.255.0") (node 0) (node 1)
    ∷ install 0 (node 0) (bulk_send tcp (interface (node 0) (node 1) 1) 9 100)
    ∷ start 0 1
    ∷ stop 0 10
    ∷ install 1 (node 1) (packet_sink tcp 9)
    ∷ start 1 1
    ∷ start 1 10
    ∷ observe (codes "bulk-send.tr")
    ∷ stop_simulator 10
    ∷ run
    ∷ destroy
    ∷ []
