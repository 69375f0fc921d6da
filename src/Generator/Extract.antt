-- ===== src/Generator/Extract.antt =====
-- `extract_pktgen_pkt` of traffic_generator.c, which reads the header that `send_pkt` writes.
-- A packet is the list of its bytes, and reading outside of it is a fault. Where the packet was captured
-- with libpcap, the header is turned to host order in the packet itself; here it is returned.
pub mod Sent
use oflops_turbo.Base.{
  ℕ, zero, suc, ◌+◌, ◌-◌, ◌*◌, ◌/◌, ◌%◌, ◌^◌, ◌≤◌, ◌<◌, ◌≡◌, refl, ap, ◌∙◌, sym, inl, inr, Bool,
  Bool-cases, true, false, ◌||◌, not, List, [], ◌∷◌, ◌++◌, Option, none, some, arith, ltb, ◌==◌,
  if◌then◌else◌, length, drop, take, Run, ok, fault, ◌>>=◌, Returns, returns,
}
use oflops_turbo.Base.Int.{ℤ, pos, negsuc, pos_part, ltb_ℤ, eqb_ℤ}
use oflops_turbo.MsgBuf.{Bytes}
use oflops_turbo.Setup.{Context, pcap, nf2}
use oflops_turbo.Msg.{EtherAddr}
use oflops_turbo.Msg.Probe.{short_bytes, long_bytes, address_bytes, byte_of, short_of}
use oflops_turbo.Generator.Packets.{Packet}

-- `struct pktgen_hdr`
pub record PktgenHdr : Type 0 where
  pub magic : ℕ
  pub seq_num : ℕ
  pub tv_sec : ℕ
  pub tv_usec : ℕ

-- What is written to `*fl`.
pub record FlowFields : Type 0 where
  pub dl_src : Bytes
  pub dl_dst : Bytes
  pub dl_type : ℕ
  pub dl_vlan : ℕ
  pub nw_src : ℕ
  pub nw_dst : ℕ
  pub tp_src : ℕ
  pub tp_dst : ℕ

-- Four bytes in network order.
unfoldable pub long_of : Bytes → ℕ → Run ℕ
long_of b i = do high ← short_of b i; low ← short_of b (i + 2); ok (65536 * high + low)

-- The size of the Ethernet header of an IP packet.
pub ether_offset : Bytes → Run (Option ℕ)
ether_offset b = do
  type ← short_of b 12
  let plain : Option ℕ = if type == 2048 then some 14 else none
  let tagged : Run (Option ℕ) =
      short_of b 16 >>= λ inner. ok (if inner == 2048 then some 18 else plain)
  if type == 33024 then tagged else ok plain

-- The fields of a flow, from a packet whose Ethernet header has `off` bytes and whose UDP header is at
-- `at`. Of the tag of a VLAN `ntohs(vid << 4) & 0x0FFF` is the second byte.
pub flow_of : Bytes → ℕ → ℕ → Run FlowFields
flow_of b off at = do
  tag ← byte_of b 15
  src ← long_of b (off + 12)
  dst ← long_of b (off + 16)
  from ← short_of b at
  to ← short_of b (at + 2)
  ok (record {
    dl_src = take 6 (drop 6 b);
    dl_dst = take 6 b;
    dl_type = 2048;
    dl_vlan = if off == 18 then tag else 65535;
    nw_src = src;
    nw_dst = dst;
    tp_src = from;
    tp_dst = to;
  })

pub pktgen_hdr_of : Bytes → ℕ → Run PktgenHdr
pktgen_hdr_of b i = do
  magic ← long_of b i
  seq_num ← long_of b (i + 4)
  tv_sec ← long_of b (i + 8)
  tv_usec ← long_of b (i + 12)
  ok (record { magic = magic; seq_num = seq_num; tv_sec = tv_sec; tv_usec = tv_usec })

-- The entry `port` is outside of the array of channels.
abbrev pub not_there : Context → ℤ → Bool
not_there ctx port = not (ltb (pos_part port) ctx.max_channels)

-- `extract_pktgen_pkt`, with `wants_flow` where `fl` is not NULL, and `nf_header` for what the library
-- of the NetFPGA card returns: the header (`none` is NULL), and what is written to `*fl`.
pub extract_pktgen_pkt :
    Context
    → (Bytes → ℕ → Option PktgenHdr)
    → ℤ
    → Bytes
    → ℕ
    → Bool
    → Run (Option PktgenHdr × Option FlowFields)
extract_pktgen_pkt ctx nf_header port b len wants_flow =
    let cap_type = (ctx.channels (pos_part port)).cap_type in
    let read : Run (Option PktgenHdr × Option FlowFields) = do
      offset ← ether_offset b
      elim offset [
        | none ↦ ok (none, none)
        | some off ↦ (do
          first ← byte_of b off
          let at = off + 4 * (first % 16)
          let found : Run (Option PktgenHdr × Option FlowFields) = do
            flow ← if wants_flow then (flow_of b off at >>= λ f. ok (some f)) else ok none
            hdr ←
                if not_there ctx port
                then fault
                else if eqb_ℤ cap_type pcap
                then (pktgen_hdr_of b (at + 8) >>= λ h. ok (some h))
                else if eqb_ℤ cap_type nf2
                then ok (nf_header b (len - at))
                else ok none
            ok (hdr, flow)
          if ltb len at then ok (none, none) else found)
      ]
    in if ltb_ℤ port (pos 0) || ltb_ℤ (pos ctx.n_channels) port then ok (none, none) else read
