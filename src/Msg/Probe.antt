-- ===== src/Msg/Probe.antt =====
-- The measurement packets of msg.c: `generate_packet`, and `extract_pkt_id`, which reads the id that the
-- measurement modules write behind the headers.
-- A packet is the list of its bytes, and reading outside of it is a fault. Numbers of a `struct flow`
-- are in network order, and given by their value.
use oflops_turbo.Base.{
  ℕ, ◌+◌, ◌-◌, ◌*◌, ◌/◌, ◌%◌, ◌≤◌, ◌≡◌, refl, false, List, [], ◌∷◌, ◌++◌, Option, none, some, arith,
  ltb, ◌==◌, if◌then◌else◌, get_elem?, take, replicate, Run, ok, fault, ◌>>=◌,
}
use oflops_turbo.Generator.Packets.{vlan_tci}
use oflops_turbo.Msg.{EtherAddr, Flow}

-- A number in network order, of two bytes and of four.
abbrev pub short_bytes : ℕ → List ℕ
short_bytes n = n / 256 % 256 ∷ n % 256 ∷ []

abbrev pub long_bytes : ℕ → List ℕ
long_bytes n = n / 16777216 % 256 ∷ n / 65536 % 256 ∷ n / 256 % 256 ∷ n % 256 ∷ []

abbrev pub address_bytes : EtherAddr → List ℕ
address_bytes a = a.byte0 ∷ a.byte1 ∷ a.byte2 ∷ a.byte3 ∷ a.byte4 ∷ a.byte5 ∷ []

-- The headers that `generate_packet` writes, for a packet of `len` bytes: Ethernet with a VLAN tag, IP,
-- and UDP.
pub packet_headers : Flow → ℕ → List ℕ
packet_headers test len =
    address_bytes test.dl_dst
    ++ (address_bytes test.dl_src
        ++ (short_bytes 33024
            ++ (short_bytes (vlan_tci test.dl_vlan)
                ++ (short_bytes test.dl_type
                    ++ ((69 ∷ 0 ∷ [])
                        ++ (short_bytes (len - 18)
                            ++ ((0 ∷ 0 ∷ 0 ∷ 0 ∷ 10 ∷ test.nw_proto ∷ [])
                                ++ (short_bytes 39575
                                    ++ (long_bytes test.nw_src
                                        ++ (long_bytes test.nw_dst
                                            ++ (short_bytes test.tp_src
                                                ++ (short_bytes test.tp_dst
                                                    ++ (short_bytes (len - 38)
                                                        ++ (0 ∷ 0 ∷ []))))))))))))))

-- `generate_packet`; `none` is NULL.
pub generate_packet : Flow → ℕ → Option (List ℕ)
generate_packet test len =
    let packet = packet_headers test len ++ replicate (len - 46) 0 in
    if ltb len 58 then none else if test.nw_proto == 17 then some packet else none

-- Reading a byte, and two in network order.
unfoldable pub byte_of : List ℕ → ℕ → Run ℕ
byte_of b i = elim (get_elem? b i) [ none ↦ fault | some x ↦ ok x ]

unfoldable pub short_of : List ℕ → ℕ → Run ℕ
short_of b i = do x ← byte_of b i; y ← byte_of b (i + 1); ok (256 * x + y)

-- The rest of `extract_pkt_id`, behind an Ethernet header of `off` bytes. The four bytes of the id are
-- read in little-endian order, without a test that they are there.
pub id_behind : List ℕ → ℕ → ℕ → Run ℕ
id_behind b len off = do
  first ← byte_of b off
  let at = off + 4 * (first % 16)
  let id : Run ℕ = do
    w ← byte_of b (at + 8)
    x ← byte_of b (at + 8 + 1)
    y ← byte_of b (at + 8 + 2)
    z ← byte_of b (at + 8 + 3)
    ok (w + 256 * x + 65536 * y + 16777216 * z)
  if ltb len at then ok 0 else id

-- `extract_pkt_id`; the second type is only read where the first one is that of a VLAN.
pub extract_pkt_id : List ℕ → ℕ → Run ℕ
extract_pkt_id b len = do
  type ← short_of b 12
  let plain = if type == 2048 then id_behind b len 14 else ok 0
  let tagged : Run ℕ = do inner ← short_of b 16; if inner == 2048 then id_behind b len 18 else plain
  if type == 33024 then tagged else plain

-- A UDP flow of IP, and a length with room for the headers. `generate_packet` returns a packet, and
-- `extract_pkt_id` reads from it whatever four bytes are written behind its 46 bytes of headers, as a
-- number in little-endian order, whatever follows them.
pub extract_pkt_id-generate_packet :
    (test : Flow) (len w x y z : ℕ) (rest : List ℕ)
    → 58 ≤ len
    → test.nw_proto ≡ 17
    → test.dl_type ≡ 2048
    → (b : List ℕ) × ((generate_packet test len ≡ some b)
        × (extract_pkt_id (take 46 b ++ (w ∷ x ∷ y ∷ z ∷ rest)) len
            ≡ ok (w + 256 * x + 65536 * y + 16777216 * z)))
unfolding generate_packet packet_headers extract_pkt_id id_behind short_of byte_of
extract_pkt_id-generate_packet test len w x y z rest long udp ip =
    let fits : ltb len 58 ≡ false = ground arith in
    let room : ltb len 38 ≡ false = ground arith in
    (packet_headers test len ++ replicate (len - 46) 0, (rw (fits, udp) refl, rw (ip, room) refl))
