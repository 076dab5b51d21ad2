-- ===== src/Ns3/Variants.antt =====
-- main of ns3/tcpvariants.cc: one transfer over a bottleneck with a queue disc. `Args` holds what the
-- variables of main are after cmd.Parse.
use computer_networks_lab.Prelude.{ℕ, [], ◌∷◌, ◌++◌, ◌+◌, ◌-◌, ◌^◌, ◌%◌, if◌then◌else◌}
use computer_networks_lab.Libc.Text.{Bytes, codes}
use computer_networks_lab.Ns3.Script.{
  tcp, node, interface, packet_sink, my_app, text, number, set_default, create, data_rate, delay,
  install_link, install_stack, queue_disc, assign, populate_routes, install, start, stop,
  stop_simulator, run, destroy, fatal, Script,
}
use computer_networks_lab.Ns3.Wires.{same_bytes}

abbrev mask_24 : Bytes
mask_24 = codes "255.255.255.0"

pub record Args : Type 0 where
  pub transport_prot : Bytes
  pub bottleneck_bw : Bytes
  pub bottleneck_d : Bytes
  pub mtu_bytes : ℕ
  pub max_bytes : ℕ
  pub queue_disc_type : Bytes
  pub buff_size : ℕ

abbrev pub default_args : Args
default_args = record {
  transport_prot = codes "TcpNewReno";
  bottleneck_bw = codes "100Kbps";
  bottleneck_d = codes "2ms";
  mtu_bytes = 400;
  max_bytes = 10_000;
  queue_disc_type = codes "ns3::PfifoFastQueueDisc";
  buff_size = 20;
}

-- uint32_t tcp_adu_size = mtu_bytes - 20 - (ip_header + tcp_header)
unfoldable pub tcp_adu_size : ℕ → ℕ → ℕ → ℕ
tcp_adu_size mtu_bytes ip_header tcp_header =
    ((mtu_bytes + 2 ^ 32 - 20) % 2 ^ 32 + 2 ^ 32 - (ip_header + tcp_header) % 2 ^ 32) % 2 ^ 32

-- What comes before the test of queue_disc_type. `1 << buff_size` is for buff_size below 31.
unfoldable pub setting : Args → Script
setting args =
    set_default (codes "ns3::TcpSocket::RcvBufSize") (number (2 ^ args.buff_size))
    ∷ set_default (codes "ns3::TcpSocket::SndBufSize") (number (2 ^ args.buff_size))
    ∷ set_default (codes "ns3::TcpL4Protocol::SocketType")
        (text (codes "ns3::" ++ args.transport_prot))
    ∷ create 3
    ∷ data_rate 0 (codes "250Kbps")
    ∷ delay 0 (codes "2ms")
    ∷ install_link 0 (node 0) (node 1)
    ∷ data_rate 1 args.bottleneck_bw
    ∷ delay 1 args.bottleneck_d
    ∷ install_link 1 (node 1) (node 2)
    ∷ install_stack
    ∷ assign (codes "10.1.1.0") mask_24 (node 0) (node 1)
    ∷ []

-- What comes after it, for the sizes of an Ipv4Header and a TcpHeader.
unfoldable pub transfer : Args → ℕ → ℕ → Script
transfer args ip_header tcp_header =
    assign (codes "10.1.2.0") mask_24 (node 1) (node 2)
    ∷ populate_routes
    ∷ install 0 (node 2) (packet_sink tcp 8080)
    ∷ start 0 0
    ∷ stop 0 30
    ∷ set_default (codes "ns3::TcpSocket::SegmentSize")
        (number (tcp_adu_size args.mtu_bytes ip_header tcp_header))
    ∷ install 1 (node 0)
        (my_app tcp (interface (node 1) (node 2) 1) 8080 1040 args.max_bytes (codes "250Kbps"))
    ∷ start 1 1
    ∷ stop 1 30
    ∷ stop_simulator 35
    ∷ run
    ∷ destroy
    ∷ []

abbrev pub pfifo : Bytes
pfifo = codes "ns3::PfifoFastQueueDisc"

abbrev pub codel : Bytes
codel = codes "ns3::CoDelQueueDisc"

unfoldable pub variants_main : Args → ℕ → ℕ → Script
unfolding setting transfer
variants_main args ip_header tcp_header =
    setting args
    ++ (if same_bytes args.queue_disc_type pfifo
        then queue_disc pfifo (node 1) (node 2) ∷ transfer args ip_header tcp_header
        else (if same_bytes args.queue_disc_type codel
            then queue_disc codel (node 1) (node 2) ∷ transfer args ip_header tcp_header
            else fatal (
                codes
                  "Queue not recognized. Allowed values are ns3::CoDelQueueDisc or ns3::PfifoFastQueueDisc")
              ∷ []))
