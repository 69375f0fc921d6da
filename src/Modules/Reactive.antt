-- ===== src/Modules/Reactive.antt =====
-- example_modules/openflow_reactive/reactive.c: the module that measures how long a switch and a
-- controller need until the packets of a new flow pass. Its global variables are a record; its arrays
-- are functions from indices with the length `flows`, and an access outside of them is a fault. Logging
-- is not modelled.
pub mod Ending
pub mod AllReceived
use oflops_turbo.Base.{
  ℕ, zero, suc, ◌+◌, ◌*◌, ◌/◌, ◌%◌, ◌^◌, Bool, true, false, ◌&&◌, ◌||◌, not, List, [], ◌∷◌, ◌++◌,
  Option, none, some, ltb, leb, ◌==◌, if◌then◌else◌, get_or, Run, ok, aborted, fault, ◌>>=◌,
}
use oflops_turbo.Base.Int.{ℤ, pos, negsuc, pos_part, ltb_ℤ, eqb_ℤ}
use oflops_turbo.Base.Memory.{update}
use oflops_turbo.Time.{TimeVal, add_time}
use oflops_turbo.EventQueue.{Slots, WcQueue}
use oflops_turbo.MsgBuf.{Bytes}
use oflops_turbo.Msg.{OpenFlow, Header, Flow, FlowMod, EtherAddr}
use oflops_turbo.Msg.Builders.{make_ofp_flow_del, make_ofp_flow_add}
use oflops_turbo.Generator.Extract.{PktgenHdr, FlowFields, extract_pktgen_pkt}
use oflops_turbo.Setup.{Chars, Context}
use oflops_turbo.Setup.Args.{to_unsigned}
use oflops_turbo.Options.{same}
use oflops_turbo.Modules.{
  Request, send_flow_mod, end_test, byestr, snmpget, oflops_schedule_timer_event, get_all,
  get_channels, echo_header, flow_id, in_flows,
}

-- The global variables; an entry of `ip_received` is the test whether it is not 0.
pub record Reactive : Type 0 where
  pub pkt_size : ℕ
  pub proberate : ℕ
  pub probe_snd_interval : ℕ
  pub print : ℤ
  pub flows : ℕ
  pub ip_received : ℕ → Bool
  pub ip_received_count : ℕ
  pub flow_send : ℕ → TimeVal
  pub flow_controller : ℕ → TimeVal
  pub flow_received : ℕ → TimeVal

-- `init` for one parameter, with `strtol`. The test on `pkt_size` cannot hold.
pub set_param : (Chars → ℤ) → Chars → Chars → Reactive → Run Reactive
set_param strtol name value s =
    let z = strtol value in
    let size = to_unsigned (2 ^ 32) z in
    let rate = to_unsigned (2 ^ 64) z in
    if same name (b'p' ∷ b'k' ∷ b't' ∷ b'_' ∷ b's' ∷ b'i' ∷ b'z' ∷ b'e' ∷ [])
    then (if ltb size 64 && ltb 1500 size then aborted else ok (record s { pkt_size = size }))
    else if same name (b'p' ∷ b'r' ∷ b'o' ∷ b'b' ∷ b'e' ∷ b'_' ∷ b'r' ∷ b'a' ∷ b't' ∷ b'e' ∷ [])
    then (if leb rate 0 || leb 1010 rate then aborted else ok (record s { proberate = rate }))
    else if same name (b'f' ∷ b'l' ∷ b'o' ∷ b'w' ∷ b's' ∷ [])
    then (if ltb_ℤ (pos 0) z then ok (record s { flows = pos_part z }) else aborted)
    else if same name (b'p' ∷ b'r' ∷ b'i' ∷ b'n' ∷ b't' ∷ [])
    then ok (record s { print = z })
    else ok s

abbrev pub never : TimeVal
never = record { tv_sec = pos 0; tv_usec = pos 0 }

-- The end of `init`: the interval between packets, in `uint64_t`, and the arrays.
unfoldable pub allocate_flows : Reactive → Run Reactive
allocate_flows s =
    let bits = s.pkt_size * 8 * 1_000_000 % 2 ^ 64 in
    let rate = s.proberate * (1024 * 1024) % 2 ^ 64 in
    if rate == 0
    then aborted
    else ok (record s {
      probe_snd_interval = bits / rate;
      ip_received = λ i. false;
      flow_send = λ i. never;
      flow_controller = λ i. never;
      flow_received = λ i. never;
    })

module _ (of : OpenFlow) where
  -- `start`, where the two calls of `gettimeofday` for the events return `t1` and `t2`.
  pub start : Slots → TimeVal → TimeVal → WcQueue → Run (List Request × WcQueue)
  start fresh t1 t2 q = do
    let (flow_del, n) = make_ofp_flow_del of
    (id1, q1) ← oflops_schedule_timer_event fresh q (add_time t1 (pos 1) (pos 0)) snmpget
    (id2, q2) ← oflops_schedule_timer_event fresh q1 (add_time t2 (pos 60) (pos 0)) byestr
    ok (send_flow_mod flow_del ∷ [], q2)

  -- `of_event_echo_request`: the answer.
  pub of_event_echo_request : ℕ → Header → Header
  of_event_echo_request echo_reply ofph = echo_header of echo_reply ofph.xid

  -- The flow of a packet, as `extract_pktgen_pkt` leaves it after its `bzero`, with the port of the message.
  -- The id of its VLAN stays in host order.
  pub flow_to_add : ℕ → FlowFields → Flow
  flow_to_add in_port f = record {
    mask = 0;
    in_port = in_port;
    dl_src = address_of f.dl_src;
    dl_dst = address_of f.dl_dst;
    dl_vlan = of.swap f.dl_vlan;
    dl_type = f.dl_type;
    nw_src = f.nw_src;
    nw_dst = f.nw_dst;
    nw_proto = 17;
    tp_src = f.tp_src;
    tp_dst = f.tp_dst;
  }
    where
      address_of : Bytes → EtherAddr
      address_of b = record {
        byte0 = get_or b 0 0;
        byte1 = get_or b 1 0;
        byte2 = get_or b 2 0;
        byte3 = get_or b 3 0;
        byte4 = get_or b 4 0;
        byte5 = get_or b 5 0;
      }

  -- The arrays after a packet of the flow `id` that the controller was given, without a test of the id.
  pub file_packet_in : ℤ → PktgenHdr → TimeVal → Reactive → Run Reactive
  file_packet_in (negsuc i) h now s = fault
  file_packet_in (pos i) h now s =
      let sent : TimeVal = record { tv_sec = pos h.tv_sec; tv_usec = pos h.tv_usec } in
      if ltb i s.flows
      then ok (record s {
        flow_send =
            if eqb_ℤ (s.flow_send i).tv_sec (pos 0) then update s.flow_send i sent else s.flow_send;
        flow_controller =
            if eqb_ℤ (s.flow_controller i).tv_sec (pos 0)
            then update s.flow_controller i now
            else s.flow_controller;
      })
      else fault

  -- `of_event_packet_in`, for a message with this port, buffer and data; `no_match` is the test of its
  -- reason, and `in_port` OFPP_IN_PORT.
  pub of_event_packet_in :
      ℕ
      → ℕ
      → Context
      → (Bytes → ℕ → Option PktgenHdr)
      → Bool
      → ℕ
      → ℕ
      → Bytes
      → ℕ
      → TimeVal
      → Reactive
      → Run (List Request × Reactive)
  of_event_packet_in network in_port ctx nf_header no_match port buffer_id packet total_len now s =
      let answer : Run (List Request × Reactive) = do
        (pktgen, fl) ← extract_pktgen_pkt ctx nf_header (pos port) packet total_len true
        elim pktgen [
          | none ↦ ok ([], s)
          | some h ↦ elim fl [
            | none ↦ fault
            | some f ↦ (do
              s' ← file_packet_in (flow_id network f.nw_dst) h now s
              let (b, len) = make_ofp_flow_add of (flow_to_add port f) in_port 1 120
              ok (send_flow_mod (record b { buffer_id = buffer_id }) ∷ [], s'))
          ]
        ]
      in if no_match then answer else ok ([], s)

-- `handle_timer_event`
pub handle_timer_event : Slots → Context → TimeVal → ℕ → WcQueue → Run (List Request × WcQueue)
handle_timer_event fresh ctx now str q =
    let snmp : Run (List Request × WcQueue) = do
      (id, q') ← oflops_schedule_timer_event fresh q (add_time now (pos 1) (pos 0)) snmpget
      ok (get_all ctx.cpu_oids ++ get_channels ctx.n_channels 0 ctx.channels, q')
    in if str == byestr
      then ok (end_test (pos 1) ∷ [], q)
      else if str == snmpget
      then snmp
      else ok ([], q)

-- `handle_pcap_event` for a packet of the flow `id`: the first packet of each flow is filed, and the end of
-- the test is scheduled with that of the last flow.
unfoldable pub file_received :
    Slots → TimeVal → TimeVal → ℤ → Reactive → WcQueue → Run (Reactive × WcQueue)
file_received fresh ts now id s q =
    let i = pos_part id in
    let s' = record s {
      ip_received = update s.ip_received i true;
      ip_received_count = s.ip_received_count + 1;
      flow_received = update s.flow_received i ts;
    } in
    let bye : Run (Reactive × WcQueue) =
      oflops_schedule_timer_event fresh q (add_time now (pos 1) (pos 0)) byestr >>= λ r.
      ok (s', r.1) in
    if in_flows id s.flows && not (s.ip_received i)
    then if leb s.flows (s.ip_received_count + 1) then bye else ok (s', q)
    else ok (s, q)

-- `handle_pcap_event`, on the channel OFLOPS_DATA1 or on another one.
unfoldable pub handle_pcap_event :
    ℕ
    → Slots
    → Context
    → (Bytes → ℕ → Option PktgenHdr)
    → ℕ
    → Bytes
    → ℕ
    → TimeVal
    → TimeVal
    → Reactive
    → WcQueue
    → Run (Reactive × WcQueue)
handle_pcap_event network fresh ctx nf_header ch packet caplen ts now s q =
    let read : Run (Reactive × WcQueue) = do
      (pktgen, fl) ← extract_pktgen_pkt ctx nf_header (pos ch) packet caplen true
      elim pktgen [
        | none ↦ ok (s, q)
        | some h ↦ elim fl [
          | none ↦ fault
          | some f ↦ file_received fresh ts now (flow_id network f.nw_dst) s q
        ]
      ]
    in if ch == 1 then read else ok (s, q)
