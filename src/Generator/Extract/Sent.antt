-- ===== src/Generator/Extract/Sent.antt =====
-- What `extract_pktgen_pkt` reads from a packet of `send_pkt`.
use oflops_turbo.Base.{
  ℕ, ◌+◌, ◌*◌, ◌/◌, ◌%◌, ◌^◌, ◌≤◌, ◌<◌, ◌≡◌, true, false, ◌||◌, ◌∷◌, Option, none, some, arith, ltb,
  Run, ok,
}
use oflops_turbo.Base.Int.{pos, ltb_ℤ, eqb_ℤ}
use oflops_turbo.MsgBuf.{Bytes}
use oflops_turbo.Setup.{Context, pcap}
use oflops_turbo.Msg.{EtherAddr}
use oflops_turbo.Msg.Probe.{address_bytes, byte_of, short_of}
use oflops_turbo.Generator.Packets.{Packet}
use oflops_turbo.Generator.Extract.{
  PktgenHdr, FlowFields, long_of, ether_offset, flow_of, pktgen_hdr_of, extract_pktgen_pkt,
}

-- The IP header, the UDP header and the header of the generator, in memory.
abbrev pub ip_bytes : Packet → Bytes → Bytes
ip_bytes p rest =
    69
    ∷ 0
    ∷ p.tot_len / 256 % 256
    ∷ p.tot_len % 256
    ∷ 0
    ∷ 0
    ∷ 0
    ∷ 0
    ∷ 100
    ∷ 17
    ∷ p.check / 256 % 256
    ∷ p.check % 256
    ∷ p.saddr / 16777216 % 256
    ∷ p.saddr / 65536 % 256
    ∷ p.saddr / 256 % 256
    ∷ p.saddr % 256
    ∷ p.daddr / 16777216 % 256
    ∷ p.daddr / 65536 % 256
    ∷ p.daddr / 256 % 256
    ∷ p.daddr % 256
    ∷ p.source / 256 % 256
    ∷ p.source % 256
    ∷ p.dest / 256 % 256
    ∷ p.dest % 256
    ∷ p.udp_len / 256 % 256
    ∷ p.udp_len % 256
    ∷ 0
    ∷ 0
    ∷ 190
    ∷ 155
    ∷ 233
    ∷ 85
    ∷ p.seq_num / 16777216 % 256
    ∷ p.seq_num / 65536 % 256
    ∷ p.seq_num / 256 % 256
    ∷ p.seq_num % 256
    ∷ p.tv_sec / 16777216 % 256
    ∷ p.tv_sec / 65536 % 256
    ∷ p.tv_sec / 256 % 256
    ∷ p.tv_sec % 256
    ∷ p.tv_usec / 16777216 % 256
    ∷ p.tv_usec / 65536 % 256
    ∷ p.tv_usec / 256 % 256
    ∷ p.tv_usec % 256
    ∷ rest

-- The Ethernet header in front of them, with a tag or without.
abbrev pub framed : Option ℕ → Bytes → Bytes
framed none ip = 8 ∷ 0 ∷ ip
framed (some tci) ip = 129 ∷ 0 ∷ tci / 256 % 256 ∷ tci % 256 ∷ 8 ∷ 0 ∷ ip

abbrev pub addressed : EtherAddr → EtherAddr → Bytes → Bytes
addressed to from rest =
    to.byte0 ∷ to.byte1 ∷ to.byte2 ∷ to.byte3 ∷ to.byte4 ∷ to.byte5 ∷ from.byte0 ∷ from.byte1
    ∷ from.byte2 ∷ from.byte3 ∷ from.byte4 ∷ from.byte5 ∷ rest

-- A packet between two Ethernet addresses, with `rest` behind the header of the generator.
abbrev pub packet_bytes : EtherAddr → EtherAddr → Packet → Bytes → Bytes
packet_bytes to from p rest = addressed to from (framed p.tci (ip_bytes p rest))

-- The value of the four bytes of a number in network order, and of the two bytes of one.
abbrev long_value : ℕ → ℕ
long_value n =
    65536 * (256 * (n / 16777216 % 256) + n / 65536 % 256) + (256 * (n / 256 % 256) + n % 256)

abbrev short_value : ℕ → ℕ
short_value n = 256 * (n / 256 % 256) + n % 256

long_bytes_lem : (n : ℕ) → n < 2 ^ 32 → long_value n ≡ n
long_bytes_lem n small = omega arith

short_bytes_lem : (n : ℕ) → n < 65536 → short_value n ≡ n
short_bytes_lem n small = omega arith

-- The id that is read from a tag.
abbrev pub vlan_of : Option ℕ → ℕ
vlan_of none = 65535
vlan_of (some tci) = tci % 256

-- The header and the flow of a packet.
abbrev pub header_in : Packet → PktgenHdr
header_in p = record {
  magic = 3197888853;
  seq_num = p.seq_num;
  tv_sec = p.tv_sec;
  tv_usec = p.tv_usec;
}

abbrev pub flow_in : EtherAddr → EtherAddr → Packet → FlowFields
flow_in to from p = record {
  dl_src = address_bytes from;
  dl_dst = address_bytes to;
  dl_type = 2048;
  dl_vlan = vlan_of p.tci;
  nw_src = p.saddr;
  nw_dst = p.daddr;
  tp_src = p.source;
  tp_dst = p.dest;
}

-- The fields are in the range of their types.
pub record InRange (p : Packet) : Type 0 where
  pub saddr : p.saddr < 2 ^ 32
  pub daddr : p.daddr < 2 ^ 32
  pub source : p.source < 65536
  pub dest : p.dest < 65536
  pub seq_num : p.seq_num < 2 ^ 32
  pub tv_sec : p.tv_sec < 2 ^ 32
  pub tv_usec : p.tv_usec < 2 ^ 32

-- The numbers that are put together from the bytes.
read_back :
    (to from : EtherAddr) (p : Packet) (vlan : ℕ)
    → InRange p
    → ◌≡◌ {A = Run (Option PktgenHdr × Option FlowFields)}
        (ok (
          some (record {
            magic = 3197888853;
            seq_num = long_value p.seq_num;
            tv_sec = long_value p.tv_sec;
            tv_usec = long_value p.tv_usec;
          }),
          some (record (flow_in to from p) {
            dl_vlan = vlan;
            nw_src = long_value p.saddr;
            nw_dst = long_value p.daddr;
            tp_src = short_value p.source;
            tp_dst = short_value p.dest;
          }),
        ))
        (ok (some (header_in p), some (record (flow_in to from p) { dl_vlan = vlan })))
read_back to from p vlan r = λ k. ok (
  some (record {
    magic = 3197888853;
    seq_num = long_bytes_lem p.seq_num r.seq_num k;
    tv_sec = long_bytes_lem p.tv_sec r.tv_sec k;
    tv_usec = long_bytes_lem p.tv_usec r.tv_usec k;
  }),
  some (record (flow_in to from p) {
    dl_vlan = vlan;
    nw_src = long_bytes_lem p.saddr r.saddr k;
    nw_dst = long_bytes_lem p.daddr r.daddr k;
    tp_src = short_bytes_lem p.source r.source k;
    tp_dst = short_bytes_lem p.dest r.dest k;
  }),
)

module _ (ctx : Context) (nf_header : Bytes → ℕ → Option PktgenHdr) (port : ℕ)
    (known : port ≤ ctx.n_channels) (there : port < ctx.max_channels)
    (captured : eqb_ℤ (ctx.channels port).cap_type pcap ≡ true) where
  extract-framed :
      (to from : EtherAddr) (p : Packet) (rest : Bytes) (len : ℕ) (tag : Option ℕ)
      → InRange p
      → 38 ≤ len
      → extract_pktgen_pkt ctx nf_header
          (pos port)
          (addressed to from (framed tag (ip_bytes p rest)))
          len
          true
        ≡ ok (some (header_in p), some (record (flow_in to from p) { dl_vlan = vlan_of tag }))
  unfolding extract_pktgen_pkt ether_offset flow_of pktgen_hdr_of long_of short_of byte_of
  extract-framed to from p rest len none in_range long =
      let known_ : (ltb_ℤ (pos port) (pos 0) || ltb_ℤ (pos ctx.n_channels) (pos port)) ≡ false =
        ground arith in
      let there_ : ltb port ctx.max_channels ≡ true = ground arith in
      let long_ : ltb len 34 ≡ false = ground arith in
      rw (known_, there_, captured, long_) (read_back to from p 65535 in_range)
  extract-framed to from p rest len (some tci) in_range long =
      let known_ : (ltb_ℤ (pos port) (pos 0) || ltb_ℤ (pos ctx.n_channels) (pos port)) ≡ false =
        ground arith in
      let there_ : ltb port ctx.max_channels ≡ true = ground arith in
      let long_ : ltb len 38 ≡ false = ground arith in
      rw (known_, there_, captured, long_) (read_back to from p (tci % 256) in_range)

  -- A packet with the headers that `innitialize_generator_packet` and `send_pkt` write, captured with
  -- libpcap on a channel that is there, with at least the bytes up to the UDP header. For it
  -- `extract_pktgen_pkt` returns the sequence number and the time that `send_pkt` wrote, and the flow
  -- between the addresses and the ports of the packet, with a tag or without.
  pub extract_pktgen_pkt-packet_bytes :
      (to from : EtherAddr) (p : Packet) (rest : Bytes) (len : ℕ)
      → InRange p
      → 38 ≤ len
      → extract_pktgen_pkt ctx nf_header (pos port) (packet_bytes to from p rest) len true
        ≡ ok (some (header_in p), some (flow_in to from p))
  extract_pktgen_pkt-packet_bytes to from p rest len in_range long =
      extract-framed to from p rest len p.tci in_range long
