-- ===== src/Ns3/Star.antt =====
-- The scripts on a layout of the layout module: main of scratch/star.cc, ns3/onoff.cc and
-- ns3/dumbell.cc. The first container of a star is the sink on its hub, the second the spokes'.
use computer_networks_lab.Prelude.{ℕ, zero, suc, [], ◌∷◌, ◌++◌, ◌+◌}
use computer_networks_lab.Libc.Text.{Bytes, codes}
use computer_networks_lab.Ns3.Script.{
  tcp, udp, hub, spoke, right, hub_address, left_address, packet_sink, on_off, text, number,
  set_default, data_rate, delay, star, dumbbell, assign_layout, install_stack, populate_routes,
  install, start, stop, observe, run, destroy, Script,
}

abbrev pub always : Bytes
always = codes "ns3::ConstantRandomVariable[Constant=1]"

abbrev pub never : Bytes
never = codes "ns3::ConstantRandomVariable[Constant=0]"

-- The loop over the spokes from index `i`, with `n` rounds left: the helper is given the hub's
-- address on the link of the spoke, and installed on the spoke.
unfoldable pub spoke_apps : ℕ → ℕ → ℕ → Script
spoke_apps port zero i = []
spoke_apps port (suc n) i =
    install 1 (spoke i) (on_off tcp (hub_address i) port always never) ∷ spoke_apps port n (i + 1)

-- star.cc, for the value of nSpokes after cmd.Parse; it is 8 without an option.
unfoldable pub star_main : ℕ → Script
unfolding spoke_apps
star_main n_spokes =
    set_default (codes "ns3::OnOffApplication::PacketSize") (number 137)
      ∷ set_default (codes "ns3::OnOffApplication::DataRate") (text (codes "14kb/s"))
      ∷ data_rate 0 (codes "5Mbps")
      ∷ delay 0 (codes "2ms")
      ∷ star n_spokes 0
      ∷ install_stack
      ∷ assign_layout (codes "10.1.1.0" ∷ []) (codes "255.255.255.0")
      ∷ install 0 hub (packet_sink tcp 50_000)
      ∷ start 0 1
      ∷ stop 0 10
      ∷ spoke_apps 50_000 n_spokes 0
    ++ (start 1 1 ∷ stop 1 10 ∷ populate_routes ∷ observe (codes "star") ∷ run ∷ destroy ∷ [])

-- onoff.cc. hub.Start is called twice.
unfoldable pub on_off_main : Script
unfolding spoke_apps
on_off_main =
    delay 0 (codes "2ms")
      ∷ data_rate 0 (codes "5Mbps")
      ∷ star 2 0
      ∷ install_stack
      ∷ assign_layout (codes "10.1.1.0" ∷ []) (codes "255.255.255.0")
      ∷ install 0 hub (packet_sink tcp 1025)
      ∷ start 0 1
      ∷ start 0 10
      ∷ spoke_apps 1025 2 0
    ++ (start 1 1 ∷ stop 1 10 ∷ populate_routes ∷ run ∷ destroy ∷ [])

-- The loop of dumbell.cc over the right leaves.
unfoldable pub client_apps : ℕ → ℕ → Script
client_apps zero i = []
client_apps (suc n) i =
    install 0 (right i) (
      on_off udp (left_address i) 1000 (codes "ns3::UniformRandomVariable")
        (codes "ns3::UniformRandomVariable"))
    ∷ client_apps n (i + 1)

unfoldable pub dumbell_main : Script
unfolding client_apps
dumbell_main =
    data_rate 0 (codes "10Mbps")
      ∷ delay 0 (codes "1ms")
      ∷ data_rate 1 (codes "10Mbps")
      ∷ delay 1 (codes "1ms")
      ∷ dumbbell 1 1 1 0
      ∷ install_stack
      ∷ assign_layout (codes "10.1.1.0" ∷ codes "10.2.1.0" ∷ codes "10.3.1.0" ∷ [])
          (codes "255.255.255.0")
      ∷ client_apps 1 0
    ++ (start 0 0
        ∷ stop 0 3
        ∷ observe (codes "dumbell.xml")
        ∷ populate_routes
        ∷ run
        ∷ observe (codes "Animation Trace file created:")
        ∷ destroy
        ∷ [])
