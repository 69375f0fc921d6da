-- ===== src/Generator/Packets.antt =====
-- The packets of the user-space generators of traffic_generator.c: how a packet is built and what
-- `send_pkt` changes in it. A field in network order is given by its value, and the memory of a packet
-- by the fields that are written; the rest of it is 0.
pub mod Rotation
use oflops_turbo.Base.{
  ℕ, zero, suc, ◌+◌, ◌-◌, ◌*◌, ◌/◌, ◌%◌, ◌^◌, Bool, true, false, not, List, [], ◌∷◌, ◌++◌, map,
  Option, none, some, ltb, leb, ◌==◌, if◌then◌else◌, length, get_elem?, Run, ok, fault, out_of_fuel,
  ◌>>=◌,
}
use oflops_turbo.Base.Int.{ℤ, pos}
use oflops_turbo.Time.{TimeVal, TimeSpec, add_timespec, to_uint32}
use oflops_turbo.Setup.{Chars}
use oflops_turbo.Setup.Args.{to_unsigned}
use oflops_turbo.Generator.{Step, usleep, send_pkt, tv_to_ts, user_round}
use oflops_turbo.Generator.Checksum.{ip_sum_calc}

-- `struct traf_gen_det`, the fields that the user-space generator reads.
pub record Details : Type 0 where
  pub src_ip : Chars
  pub dst_ip_min : Chars
  pub dst_ip_max : Chars
  pub mac_dst : Chars
  pub mac_src : Chars
  pub udp_src_port : ℕ
  pub udp_dst_port : ℕ
  pub pkt_size : ℕ
  pub vlan : ℕ
  pub delay : ℕ

-- What is written to a packet; `tci` is the tag of the VLAN, where there is one.
pub record Packet : Type 0 where
  pub ether_dhost : List ℕ
  pub ether_shost : List ℕ
  pub tci : Option ℕ
  pub tot_len : ℕ
  pub saddr : ℕ
  pub daddr : ℕ
  pub check : ℕ
  pub source : ℕ
  pub dest : ℕ
  pub udp_len : ℕ
  pub seq_num : ℕ
  pub tv_sec : ℕ
  pub tv_usec : ℕ

-- `struct pkt_details`; the pointers into the packet are NULL where there is no packet.
pub record PktDetails : Type 0 where
  pub traffic_gen : ℕ
  pub seq_num : ℕ
  pub timestamp : TimeSpec
  pub data_len : ℕ
  pub packet : Option Packet
  pub ip_dest_min : ℕ
  pub ip_dest_max : ℕ

-- What the code uses of the C library: `strtol` to the base 16, and `inet_addr`.
pub record Parsers : Type 0 where
  pub strtol : Chars → ℤ
  pub inet_addr : Chars → ℕ

-- The parts of a string between colons.
unfoldable pub colon_parts : Chars → List Chars
colon_parts [] = [] ∷ []
colon_parts (c ∷ cs) = elim (colon_parts cs) [
  | [] ↦ []
  | p ∷ ps ↦ if c == 58 then [] ∷ p ∷ ps else (c ∷ p) ∷ ps
]

-- `read_mac_addr`, to an array of 6 bytes. That it cuts the string at its colons is left out.
unfoldable pub read_mac_addr : (Chars → ℤ) → Chars → Run (List ℕ)
read_mac_addr strtol str =
    let bytes = map (λ p. to_unsigned 256 (strtol p)) (colon_parts str) in
    if leb (length bytes) 6 then ok bytes else fault

-- The words of the IP header: version 4 and 5 words, time to live 100, UDP.
unfoldable pub ip_words : Packet → List ℕ
ip_words p =
    17664
    ∷ p.tot_len
    ∷ 0
    ∷ 0
    ∷ 25617
    ∷ p.check
    ∷ p.saddr / 65536 % 65536
    ∷ p.saddr % 65536
    ∷ p.daddr / 65536 % 65536
    ∷ p.daddr % 65536
    ∷ []

-- The checksum of the header, with the field at 0 before.
pub set_check : Packet → Run Packet
set_check p = ip_sum_calc (ip_words (record p { check = 0 })) 0 >>= λ c. ok (record p { check = c })

-- The size of the Ethernet header: with a tag for a VLAN, or without.
pub ether_size : ℕ → ℕ
ether_size vlan = if vlan == 0 then 14 else if vlan == 65535 then 14 else 18

-- `htons(vlan) >> 4` as the bit field `vid`, the upper 12 bits of a 16-bit word in little-endian order:
-- the two bytes, read in network order.
pub vlan_tci : ℕ → ℕ
vlan_tci vlan = vlan / 4096 * 4096 + vlan % 256

-- The packet that is built, before its checksum.
pub new_packet : Parsers → Details → List ℕ → List ℕ → Packet
unfolding ether_size vlan_tci
new_packet parsers det dhost shost = record {
  ether_dhost = dhost;
  ether_shost = shost;
  tci = if ether_size det.vlan == 18 then some (vlan_tci det.vlan) else none;
  tot_len = (det.pkt_size - ether_size det.vlan) % 65536;
  saddr = parsers.inet_addr det.src_ip;
  daddr = parsers.inet_addr det.dst_ip_min;
  check = 0;
  source = det.udp_src_port;
  dest = det.udp_dst_port;
  udp_len = (det.pkt_size - ether_size det.vlan - 20) % 65536;
  seq_num = 0;
  tv_sec = 0;
  tv_usec = 0;
}

-- `innitialize_generator_packet`; a size below 58 leaves the generator without a packet.
pub innitialize_generator_packet : Parsers → PktDetails → Details → Run PktDetails
innitialize_generator_packet parsers state det =
    let sized = record state { data_len = det.pkt_size } in
    let build : Run PktDetails = do
      dhost ← read_mac_addr parsers.strtol det.mac_dst
      shost ← read_mac_addr parsers.strtol det.mac_src
      p ← set_check (new_packet parsers det dhost shost)
      ok (record sized {
        packet = some p;
        ip_dest_min = parsers.inet_addr det.dst_ip_min;
        ip_dest_max = parsers.inet_addr det.dst_ip_max;
      })
    in if ltb det.pkt_size 58 then ok sized else build

-- `init_traffic_gen`, for the channels from `ix` on; `start` is the time now and a random part of a
-- second, one for each generator.
pub init_traffic_gen : Parsers → ℕ → List (Option Details) → List TimeSpec → Run (List PktDetails)
init_traffic_gen parsers ix [] starts = ok []
init_traffic_gen parsers ix (none ∷ dets) starts = init_traffic_gen parsers (ix + 1) dets starts
init_traffic_gen parsers ix (some det ∷ dets) [] = out_of_fuel
init_traffic_gen parsers ix (some det ∷ dets) (start ∷ starts) = do
  state ←
      innitialize_generator_packet parsers
        (record {
          traffic_gen = ix;
          seq_num = 0;
          timestamp = start;
          data_len = 0;
          packet = none;
          ip_dest_min = 0;
          ip_dest_max = 0;
        })
        det
  rest ← init_traffic_gen parsers (ix + 1) dets starts
  ok (state ∷ rest)

-- The next address, and its checksum.
pub next_flow : PktDetails → Packet → Run Packet
next_flow state p =
    let turned = set_check (record p {
      daddr = if p.daddr == state.ip_dest_max then state.ip_dest_min else (p.daddr + 1) % 2 ^ 32;
    }) in
    if state.ip_dest_min == state.ip_dest_max then ok p else turned

-- `send_pkt`, for a generator whose channel has the delay `delay`: the packet that is sent, and the
-- generator after it.
pub send_from : ℕ → TimeVal → PktDetails → Run (Packet × PktDetails)
send_from delay now state = elim state.packet [
  | none ↦ fault
  | some p ↦ (do
    q ← next_flow state (record p {
      seq_num = state.seq_num;
      tv_sec = to_uint32 now.tv_sec;
      tv_usec = to_uint32 now.tv_usec;
    })
    ok (
      q,
      record state {
        seq_num = (state.seq_num + 1) % 2 ^ 32;
        timestamp = add_timespec state.timestamp (pos 0) (pos delay);
        packet = some q;
      },
    ))
]

-- The generator in place `i` is another one.
pub put_state : ℕ → PktDetails → List PktDetails → List PktDetails
put_state i st [] = []
put_state zero st (s ∷ ss) = st ∷ ss
put_state (suc i) st (s ∷ ss) = s ∷ put_state i st ss

-- One round of `start_user_traffic_generator`, with the packet that it sends.
pub generator_round :
    (ℕ → ℕ) → TimeVal → List PktDetails → Run (Option (ℕ × Packet) × List PktDetails)
generator_round delay_of now states =
    user_round (map (λ (s : PktDetails). s.timestamp) states) now >>= λ step. elim step [
      | usleep n ↦ ok (none, states)
      | send_pkt nr ↦ elim (get_elem? states nr) [
        | none ↦ fault
        | some s ↦ (do
          (p, s') ← send_from (delay_of s.traffic_gen) now s
          ok (some (s.traffic_gen, p), put_state nr s' states))
      ]
    ]

-- `start_user_traffic_generator`, over the clock readings until `end_traffic_generation` is set: the
-- packets that are sent, each with its channel.
pub generator_loop : (ℕ → ℕ) → List TimeVal → List PktDetails → Run (List (ℕ × Packet))
generator_loop delay_of [] states = ok []
generator_loop delay_of (now ∷ nows) states = do
  (sent, states') ← generator_round delay_of now states
  rest ← generator_loop delay_of nows states'
  ok (elim sent [ none ↦ rest | some p ↦ p ∷ rest ])
