-- ===== src/Ns3/Wiring.antt =====
-- The scripts with MyApp or a bulk transfer: every link is addressed once, every flow has a listener,
-- and what the options do.
use computer_networks_lab.Prelude.{
  ℕ, [], ◌∷◌, ◌+◌, ◌^◌, ◌≤◌, ◌<◌, Bool, true, false, ◌||◌, ◌≡◌, refl, inl, inr, Bool-cases, arith,
}
use computer_networks_lab.Libc.Text.{codes}
use computer_networks_lab.Ns3.Script.{node, Command, run}
use computer_networks_lab.Ns3.Check.{received, IsSound, Link, links_from, any}
use computer_networks_lab.Ns3.Wires.{same_bytes, wired_from}
use computer_networks_lab.Ns3.Bulk.{tcp_bulk_send}
use computer_networks_lab.Ns3.Dumbbell as Dumbbell
use computer_networks_lab.Ns3.Variants as Variants

abbrev pub leaf : Dumbbell.Args → ℕ → ℕ → Link
leaf args a b = record { from = node a; to = node b; rate = args.rate; latency = args.lat }

abbrev pub bottleneck : Link
bottleneck = record { from = node 3; to = node 4; rate = codes "10Mbps"; latency = codes "1us" }

-- The options of dumbbell.cc set the rate and the latency of the six links to leaves, and never those
-- of the link between the routers, which has 10Mbps and 1us.
dumbbell-links :
    (args : Dumbbell.Args)
    → links_from [] [] (Dumbbell.dumbbell_main args)
      ≡ leaf args 0 3
        ∷ leaf args 1 3
        ∷ leaf args 2 3
        ∷ leaf args 5 4
        ∷ leaf args 6 4
        ∷ leaf args 7 4
        ∷ bottleneck
        ∷ []
unfolding Dumbbell.dumbbell_main Dumbbell.channels Dumbbell.addresses Dumbbell.applications
    Dumbbell.simulation links_from
dumbbell-links args = elim (Bool-cases args.enable_flow_monitor) [
  | inl e ↦ rw e refl
  | inr e ↦ rw e refl
]

abbrev pub recognised : Variants.Args → Bool
recognised args =
    same_bytes args.queue_disc_type Variants.pfifo || same_bytes args.queue_disc_type Variants.codel

abbrev pub is_run : Command → Bool
is_run run = true
is_run c = false

-- tcpvariants.cc runs a simulation exactly when the queue disc it is asked for is one of the two it
-- knows; otherwise it ends before.
variants-runs :
    (args : Variants.Args) (ip_header tcp_header : ℕ)
    → any is_run (Variants.variants_main args ip_header tcp_header) ≡ recognised args
unfolding Variants.variants_main Variants.setting Variants.transfer
variants-runs args ip_header tcp_header =
    elim (Bool-cases (same_bytes args.queue_disc_type Variants.pfifo)) [
      | inl e ↦ rw e refl
      | inr e ↦ elim (Bool-cases (same_bytes args.queue_disc_type Variants.codel)) [
        | inl e' ↦ rw (e, e') refl
        | inr e' ↦ rw (e, e') refl
      ]
    ]

-- With a queue disc that it knows, the calls of tcpvariants.cc fit together, whatever the other
-- options: the queue disc is there before the bottleneck has its address, both links have a subnet of
-- their own, and the flow has its listener from its start to its end.
variants-IsSound :
    (args : Variants.Args) (ip_header tcp_header : ℕ)
    → recognised args ≡ true
    → IsSound (Variants.variants_main args ip_header tcp_header)
unfolding Variants.variants_main Variants.setting Variants.transfer received wired_from
variants-IsSound args ip_header tcp_header known =
    elim (Bool-cases (same_bytes args.queue_disc_type Variants.pfifo)) [
      | inl e ↦ rw e (record { is_wired = refl; is_received = refl })
      | inr e ↦ elim (Bool-cases (same_bytes args.queue_disc_type Variants.codel)) [
        | inl e' ↦ rw (e, e') (record { is_wired = refl; is_received = refl })
        | inr e' ↦ absurd (ground arith)
      ]
    ]

-- The segment size of tcpvariants.cc is the rest of the MTU when the headers and twenty bytes more
-- fit into it; an MTU that is too small gives a size near 2^32 and not an error.
tcp_adu_size_lem :
    (mtu ip_header tcp_header : ℕ)
    → mtu < 2 ^ 32
    → ip_header + tcp_header < 2 ^ 31
    → (20 + ip_header + tcp_header ≤ mtu
        → Variants.tcp_adu_size mtu ip_header tcp_header + (20 + ip_header + tcp_header) ≡ mtu)
      × (mtu < 20 + ip_header + tcp_header
          → Variants.tcp_adu_size mtu ip_header tcp_header + (20 + ip_header + tcp_header)
            ≡ mtu + 2 ^ 32)
unfolding Variants.tcp_adu_size
tcp_adu_size_lem mtu ip_header tcp_header h h' = (λ h''. omega arith, λ h''. omega arith)

-- For every limit on the bytes, traced or not, the calls of tcp-bulk-send.cc fit together: the link
-- is addressed and the source has its listener from its start to its end.
tcp_bulk_send-IsSound : (tracing : Bool) (max_bytes : ℕ) → IsSound (tcp_bulk_send tracing max_bytes)
unfolding tcp_bulk_send received wired_from
tcp_bulk_send-IsSound true max_bytes = record { is_wired = refl; is_received = refl }
tcp_bulk_send-IsSound false max_bytes = record { is_wired = refl; is_received = refl }
