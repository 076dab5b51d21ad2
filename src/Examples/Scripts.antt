-- ===== src/Examples/Scripts.antt =====
-- The simulation scripts: the theorems at their default options, and what the calls of the smaller
-- scripts come to.
use computer_networks_lab.Prelude.{
  ℕ, [], ◌∷◌, ltb, if◌then◌else◌, ◌-◌, ◌^◌, Bool, true, false, ◌≡◌, refl,
}
use computer_networks_lab.Ns3.Check.{IsSound, received}
use computer_networks_lab.Ns3.Wires.{wired_from}
use computer_networks_lab.Ns3.Paced.{fifth, scratch_fifth}
use computer_networks_lab.Ns3.Bulk.{bulk_send_main}
use computer_networks_lab.Ns3.Star.{always, never, star_main, on_off_main, dumbell_main}
use computer_networks_lab.Ns3.Echo.{
  first, first_val, scratch_first, udp_echo, netanim, packet_sink_main,
}
use computer_networks_lab.Ns3.Dumbbell as Dumbbell
use computer_networks_lab.Ns3.Variants as Variants
use computer_networks_lab.Ns3.Spokes.{apps_on, star_main_lem}
use computer_networks_lab.Ns3.Script.{tcp, spoke, hub_address, on_off}

wrapped_adu_size : Variants.tcp_adu_size 40 20 20 ≡ 2 ^ 32 - 20
unfolding Variants.tcp_adu_size
wrapped_adu_size = refl

star_main_lem_example :
    IsSound (star_main 8)
    × ((k : ℕ)
        → apps_on (spoke k) (star_main 8)
          ≡ (if ltb k 8 then on_off tcp (hub_address k) 50_000 always never ∷ [] else []))
star_main_lem_example = star_main_lem 8

fifth-IsSound : IsSound fifth
unfolding fifth received wired_from
fifth-IsSound = record { is_wired = refl; is_received = refl }

scratch_fifth-IsSound : IsSound scratch_fifth
unfolding scratch_fifth received wired_from
scratch_fifth-IsSound = record { is_wired = refl; is_received = refl }

first-IsSound : (tracing : Bool) → IsSound (first tracing)
unfolding first received wired_from
first-IsSound true = record { is_wired = refl; is_received = refl }
first-IsSound false = record { is_wired = refl; is_received = refl }

udp_echo-IsSound : IsSound udp_echo
unfolding udp_echo received wired_from
udp_echo-IsSound = record { is_wired = refl; is_received = refl }

netanim-IsSound : IsSound netanim
unfolding netanim received wired_from
netanim-IsSound = record { is_wired = refl; is_received = refl }

scratch_first-IsSound : IsSound scratch_first
unfolding scratch_first received wired_from
scratch_first-IsSound = record { is_wired = refl; is_received = refl }

first_val-IsSound : IsSound first_val
unfolding first_val received wired_from
first_val-IsSound = record { is_wired = refl; is_received = refl }

-- The sink is given a second start time, which is the stop time of the source.
bulk_send_unheard : received bulk_send_main ≡ false
unfolding bulk_send_main received
bulk_send_unheard = refl

on_off_unheard : received on_off_main ≡ false
unfolding on_off_main received
on_off_unheard = refl

-- No application is installed on the left leaves.
dumbell_unheard : received dumbell_main ≡ false
unfolding dumbell_main received
dumbell_unheard = refl

-- The sink is a TCP one, without a port, and the client sends datagrams.
packet_sink_unheard : received packet_sink_main ≡ false
unfolding packet_sink_main received
packet_sink_unheard = refl
