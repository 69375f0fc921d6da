-- ===== src/Modules/FlowTimer/Flows.antt =====
-- Under which flow a captured packet is filed.
use native.Mathlib.Nat.{mul-add-mod_self_right, mod-eq_of_lt}
use oflops_turbo.Base.{
  ℕ, ◌+◌, ◌-◌, ◌*◌, ◌%◌, ◌^◌, ◌≤◌, ◌<◌, ◌≡◌, refl, ap, ◌∙◌, inl, inr, Bool-cases, true, false,
  Option, arith, ltb, leb, if◌then◌else◌, ok, fault,
}
use oflops_turbo.Base.Int.{pos, negsuc, ◌-ℤ◌, eqb_ℤ}
use oflops_turbo.Base.Memory.{update}
use oflops_turbo.Time.{TimeVal, to_uint32}
use oflops_turbo.MsgBuf.{Bytes}
use oflops_turbo.Msg.{EtherAddr}
use oflops_turbo.Setup.{Context, pcap}
use oflops_turbo.Generator.Packets.{Packet, PktDetails}
use oflops_turbo.Generator.Packets.Rotation.{IsAt}
use oflops_turbo.Generator.Extract.{PktgenHdr}
use oflops_turbo.Generator.Extract.Sent.{InRange, packet_bytes, extract_pktgen_pkt-packet_bytes}
use oflops_turbo.Modules.{flow_id}
use oflops_turbo.Modules.FlowTimer.{FlowTimer, Library, file_packet, handle_pcap_event}

-- How far the address lies behind that of the network, in 32 bits.
abbrev pub offset_in : Library → ℕ → ℕ
offset_in lib address = (address + (2 ^ 32 - lib.network)) % 2 ^ 32

-- The entry `i` after a packet at the time `ts`: the first packet stays, the last one is this.
abbrev pub filed : FlowTimer → ℕ → TimeVal → FlowTimer
filed s i ts = record s {
  first = if eqb_ℤ (s.first i).tv_sec (pos 0) then update s.first i ts else s.first;
  last = update s.last i ts;
}

to_uint32-distance :
    (a n : ℕ) → a < 2 ^ 32 → n < 2 ^ 32 → to_uint32 (pos a -ℤ pos n) ≡ (a + (2 ^ 32 - n)) % 2 ^ 32
unfolding ◌-ℤ◌
to_uint32-distance a n ha hn = elim (Bool-cases (leb n a)) [
  | inl up ↦ let u : leb (0 + n) (a + 0) ≡ true = ground arith in rw u (ground arith)
  | inr down ↦ let u : leb (0 + n) (a + 0) ≡ false = ground arith in rw u (ground arith)
]

file_packet-flow_id :
    (lib : Library) (a : ℕ) (ts : TimeVal) (s : FlowTimer)
    → a < 2 ^ 32
    → lib.network < 2 ^ 32
    → s.flows ≤ 2 ^ 31
    → file_packet (flow_id lib.network a) ts s
      ≡ (if ltb (offset_in lib a) s.flows then ok (filed s (offset_in lib a) ts) else fault)
unfolding flow_id file_packet
file_packet-flow_id lib a ts s ha hn few =
    rw (to_uint32-distance a lib.network ha hn) (split (offset_in lib a))
  where
    split :
        (u : ℕ)
        → file_packet (if ltb u (2 ^ 31) then pos u else negsuc (2 ^ 32 - 1 - u)) ts s
          ≡ (if ltb u s.flows then ok (filed s u ts) else fault)
    split u = elim (Bool-cases (ltb u (2 ^ 31))) [
      | inl small ↦ rw (small, file_packet) refl
      | inr large ↦
          let out : ltb u s.flows ≡ false = ground arith in rw (large, out, file_packet) refl
    ]

module _ (lib : Library) (ctx : Context) (nf_header : Bytes → ℕ → Option PktgenHdr)
    (known : 1 ≤ ctx.n_channels) (there : 1 < ctx.max_channels)
    (captured : eqb_ℤ (ctx.channels 1).cap_type pcap ≡ true) (network : lib.network < 2 ^ 32) where
  -- A packet of a traffic generator, captured with libpcap on the first data channel, with at least the
  -- bytes up to the UDP header, and at most 2^31 flows. `handle_pcap_event` files its time under the
  -- distance of its address from that of the network, as the last time of that flow, and as the first
  -- one where there was none. Where the distance is not one of a flow, whatever sent the packet, it
  -- writes outside of the arrays.
  pub handle_pcap_event-packet_bytes :
      (to from : EtherAddr) (p : Packet) (rest : Bytes) (len : ℕ) (ts : TimeVal) (s : FlowTimer)
      → InRange p
      → 38 ≤ len
      → s.flows ≤ 2 ^ 31
      → handle_pcap_event lib ctx nf_header 1 (packet_bytes to from p rest) len ts s ≡ (
          if ltb (offset_in lib p.daddr) s.flows
          then ok (filed s (offset_in lib p.daddr) ts)
          else fault)
  unfolding handle_pcap_event
  handle_pcap_event-packet_bytes to from p rest len ts s in_range long few =
      rw
        (extract_pktgen_pkt-packet_bytes ctx nf_header 1 known there captured to from p rest len
          in_range long)
        (file_packet-flow_id lib p.daddr ts s in_range.daddr network few)

  -- A generator whose range of addresses is that of the flows has sent `k` packets. Its last packet,
  -- captured as above, is filed under the flow `k mod flows`, inside the arrays.
  pub handle_pcap_event-IsAt :
      (to from : EtherAddr) (k : ℕ) (st : PktDetails) (p : Packet) (rest : Bytes) (len : ℕ)
      (ts : TimeVal) (s : FlowTimer)
      → IsAt k st p
      → st.ip_dest_min ≡ lib.network
      → st.ip_dest_max + 1 ≡ lib.network + s.flows
      → InRange p
      → 38 ≤ len
      → s.flows ≤ 2 ^ 31
      → handle_pcap_event lib ctx nf_header 1 (packet_bytes to from p rest) len ts s
        ≡ ok (filed s (k % s.flows) ts)
  handle_pcap_event-IsAt to from k st p rest len ts s at low high in_range long few =
      let size : st.ip_dest_max - st.ip_dest_min + 1 ≡ s.flows = omega (arith, at.ordered) in
      let inside : ltb at.place s.flows ≡ true = ground (arith, at.in_range) in
      let off : offset_in lib p.daddr ≡ at.place =
        omega (arith, at.daddr, at.in_range, at.bounded, at.ordered) in
      let sent : k ≡ at.turns * s.flows + at.place =
        at.sent ∙ ap (λ n. at.turns * n + at.place) size in
      let which : k % s.flows ≡ at.place =
        ap (λ n. n % s.flows) sent
        ∙ mul-add-mod_self_right at.turns s.flows at.place
        ∙ mod-eq_of_lt (omega (arith, at.in_range)) in
      rw which (
        handle_pcap_event-packet_bytes to from p rest len ts s in_range long few
        ∙ rw (off, inside) refl)
