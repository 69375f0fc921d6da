-- ===== src/Msg/Tests.antt =====
-- The statements about msg.c at a concrete packet.
use oflops_turbo.Base.{ℕ, ◌≡◌, refl, List, [], ◌∷◌, ◌++◌, some, arith, take, ok}
use oflops_turbo.Msg.{EtherAddr, Flow}
use oflops_turbo.Msg.Probe.{generate_packet, extract_pkt_id, extract_pkt_id-generate_packet}

abbrev address : EtherAddr
address = record { byte0 = 0; byte1 = 1; byte2 = 2; byte3 = 3; byte4 = 4; byte5 = 5 }

-- A UDP flow of IP.
abbrev udp_flow : Flow
udp_flow = record {
  mask = 0;
  in_port = 1;
  dl_src = address;
  dl_dst = address;
  dl_vlan = 100;
  dl_type = 2048;
  nw_src = 167_772_161;
  nw_dst = 167_772_162;
  nw_proto = 17;
  tp_src = 8080;
  tp_dst = 8080;
}

extract_pkt_id-generate_packet_example :
    (b : List ℕ) × ((generate_packet udp_flow 100 ≡ some b)
      × (extract_pkt_id (take 46 b ++ (42 ∷ 1 ∷ 0 ∷ 0 ∷ [])) 100 ≡ ok 298))
extract_pkt_id-generate_packet_example =
    extract_pkt_id-generate_packet udp_flow 100 42 1 0 0 [] (omega arith) refl refl
