-- ===== src/Generator/Tests.antt =====
-- The statements about traffic_generator.c for two generators.
use oflops_turbo.Base.{
  true, ℕ, ◌%◌, ◌^◌, ◌<◌, ◌≡◌, refl, [], ◌∷◌, ◌++◌, none, some, length, get_elem?, arith, ok,
  Returns,
}
use oflops_turbo.Base.Int.{pos, ◌+ℤ◌, ◌*ℤ◌, ◌-ℤ◌}
use oflops_turbo.Time.{TimeVal, TimeSpec}
use oflops_turbo.Base.Memory.{update}
use oflops_turbo.Setup.{oflops_default_context}
use oflops_turbo.Setup.Tests.{context}
use oflops_turbo.Msg.{EtherAddr}
use oflops_turbo.Generator.Extract.{extract_pktgen_pkt}
use oflops_turbo.Generator.Extract.Sent.{
  packet_bytes, header_in, flow_in, extract_pktgen_pkt-packet_bytes,
}
use oflops_turbo.Generator.{ts_to_tv, user_round, quotient}
use oflops_turbo.Generator.Checksum.{
  ip_sum_calc, fold_carries, sum_words, total, ip_sum_calc-verifies,
}
use oflops_turbo.Generator.Packets.{
  Parsers, Details, Packet, PktDetails, ip_words, colon_parts, read_mac_addr,
  innitialize_generator_packet, send_from,
}
use oflops_turbo.Generator.Packets.Rotation.{
  IsAt, innitialize_generator_packet-IsAt, send_from-IsAt,
}
use oflops_turbo.Generator.Schedule.{NoneBefore, due_in, sleep_or_send, user_round_due}

abbrev second : ℕ → TimeSpec
second n = record { tv_sec = pos n; tv_nsec = pos 5000 }

abbrev now : TimeVal
now = record { tv_sec = pos 2; tv_usec = pos 0 }

-- Two generators, the second of which is due first, in 5 microseconds.
user_round_due_example :
    (nr : ℕ) × (s : TimeSpec) × (get_elem? (second 3 ∷ second 2 ∷ []) nr ≡ some s)
    × NoneBefore s (second 3 ∷ second 2 ∷ [])
    × (user_round (second 3 ∷ second 2 ∷ []) now ≡ ok (sleep_or_send (due_in now s) nr))
unfolding ts_to_tv quotient ◌+ℤ◌ ◌*ℤ◌ ◌-ℤ◌
user_round_due_example =
    user_round_due (second 3) (second 2 ∷ []) now
      ((omega arith, omega arith), ((omega arith, omega arith), tt))

-- The header of a packet from 10.0.0.1 to 10.0.0.2, with a checksum field at 0.
ip_sum_calc-verifies_example :
    (c : ℕ) × ((c < 65536)
      × (ip_sum_calc ((17664 ∷ 100 ∷ 0 ∷ 0 ∷ 25617 ∷ []) ++ (0 ∷ 2560 ∷ 1 ∷ 2560 ∷ 2 ∷ [])) 0
          ≡ ok c)
      × (ip_sum_calc ((17664 ∷ 100 ∷ 0 ∷ 0 ∷ 25617 ∷ []) ++ (c ∷ 2560 ∷ 1 ∷ 2560 ∷ 2 ∷ [])) 0
          ≡ ok 0))
unfolding total
ip_sum_calc-verifies_example =
    ip_sum_calc-verifies (17664 ∷ 100 ∷ 0 ∷ 0 ∷ 25617 ∷ []) (2560 ∷ 1 ∷ 2560 ∷ 2 ∷ [])
      (omega arith, (omega arith, (omega arith, (omega arith, (omega arith, tt)))))
      (omega arith, (omega arith, (omega arith, (omega arith, tt)))) (omega arith) (omega arith)

-- Addresses are read as the number of their characters.
abbrev parsers : Parsers
parsers = record { strtol = λ s. pos 17; inet_addr = λ s. length s }

abbrev details : Details
details = record {
  src_ip = [];
  dst_ip_min = 49 ∷ [];
  dst_ip_max = 49 ∷ 49 ∷ 49 ∷ [];
  mac_dst = 49 ∷ 58 ∷ 50 ∷ [];
  mac_src = 49 ∷ [];
  udp_src_port = 1;
  udp_dst_port = 2;
  pkt_size = 100;
  vlan = 0;
  delay = 1000;
}

abbrev pub blank : PktDetails
blank = record {
  traffic_gen = 1;
  seq_num = 0;
  timestamp = record { tv_sec = pos 0; tv_nsec = pos 0 };
  data_len = 0;
  packet = none;
  ip_dest_min = 0;
  ip_dest_max = 0;
}

innitialize_generator_packet-IsAt_example :
    Returns
      (λ st. (p : Packet) × (IsAt 0 st p × (p.daddr ≡ st.ip_dest_min)))
      (innitialize_generator_packet parsers blank details)
unfolding read_mac_addr colon_parts
innitialize_generator_packet-IsAt_example =
    innitialize_generator_packet-IsAt parsers blank details (17 ∷ 17 ∷ []) (17 ∷ []) refl
      (omega arith) refl refl (omega arith) (omega arith)

-- A generator that goes from address 1 to address 3.
abbrev pub first_packet : Packet
first_packet = record {
  ether_dhost = [];
  ether_shost = [];
  tci = none;
  tot_len = 86;
  saddr = 0;
  daddr = 1;
  check = 22167;
  source = 1;
  dest = 2;
  udp_len = 66;
  seq_num = 0;
  tv_sec = 0;
  tv_usec = 0;
}

abbrev pub running : PktDetails
running = record blank { packet = some first_packet; ip_dest_min = 1; ip_dest_max = 3 }

abbrev sent_none : IsAt 0 running first_packet
unfolding ip_words ip_sum_calc fold_carries sum_words
sent_none = record {
  here = refl;
  ordered = omega arith;
  bounded = omega arith;
  turns = 0;
  place = 0;
  in_range = omega arith;
  sent = omega arith;
  daddr = omega arith;
  seq_num = omega arith;
  tot_len = omega arith;
  check = refl;
}

send_from-IsAt_example :
    Returns
      (λ r. IsAt 1 r.1 r.0 × (r.0.seq_num ≡ 0 % 2 ^ 32))
      (send_from 1000 (record { tv_sec = pos 5; tv_usec = pos 0 }) running)
send_from-IsAt_example =
    send_from-IsAt 0 1000 (record { tv_sec = pos 5; tv_usec = pos 0 }) running first_packet
      sent_none

-- The packet, captured on the control channel, with a tag.
abbrev pub address : EtherAddr
address = record { byte0 = 2; byte1 = 0; byte2 = 0; byte3 = 0; byte4 = 0; byte5 = 1 }

abbrev tagged_packet : Packet
tagged_packet = record first_packet { tci = some 100; seq_num = 9; tv_sec = 5; tv_usec = 250_000 }

extract_pktgen_pkt-packet_bytes_example :
    extract_pktgen_pkt context
      (λ b n. none)
      (pos 0)
      (packet_bytes address address tagged_packet [])
      62
      true
    ≡ ok (some (header_in tagged_packet), some (flow_in address address tagged_packet))
unfolding oflops_default_context update
extract_pktgen_pkt-packet_bytes_example =
    extract_pktgen_pkt-packet_bytes context (λ b n. none) 0 (omega arith) (omega arith) refl address
      address tagged_packet [] 62
      (record {
        saddr = omega arith;
        daddr = omega arith;
        source = omega arith;
        dest = omega arith;
        seq_num = omega arith;
        tv_sec = omega arith;
        tv_usec = omega arith;
      })
      (omega arith)
