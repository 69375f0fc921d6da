-- ===== src/Modules/FlowTimer.antt =====
-- example_modules/openflow_timer/timer.c: the module that measures how exactly a switch times out the flows
-- of its table. Its global variables are a record; the arrays `first`, `last` and `delay` are functions
-- from indices with the length `flows`, and an access outside of them is a fault. An address is given by its
-- value. A field of `delay` is given by the two numbers that it is computed from, and is `none` where
-- the memory was never written. Logging is not modelled.
pub mod Flows
use oflops_turbo.Base.{
  not, ℕ, zero, suc, ◌+◌, ◌-◌, ◌*◌, ◌/◌, ◌%◌, ◌^◌, Bool, true, false, ◌&&◌, ◌||◌, List, [], ◌∷◌,
  ◌++◌, Option, none, some, ltb, leb, ◌==◌, if◌then◌else◌, Run, ok, aborted, fault, ◌>>=◌,
}
use oflops_turbo.Base.Int.{ℤ, pos, negsuc, pos_part, ◌-ℤ◌, ltb_ℤ, eqb_ℤ}
use oflops_turbo.Base.Memory.{update}
use oflops_turbo.Time.{TimeVal, add_time, time_diff}
use oflops_turbo.Timer.{to_int32}
use oflops_turbo.EventQueue.{Slots, WcQueue}
use oflops_turbo.MsgBuf.{Bytes}
use oflops_turbo.Msg.{OpenFlow, Header, Flow, FlowMod, EtherAddr}
use oflops_turbo.Msg.Builders.{make_ofp_hello, make_ofp_flow_del, make_ofp_flow_add}
use oflops_turbo.Generator.Extract.{PktgenHdr, FlowFields, extract_pktgen_pkt}
use oflops_turbo.Setup.{Chars, Context, Channel}
use oflops_turbo.Setup.Args.{to_unsigned}
use oflops_turbo.Options.{same}
use oflops_turbo.Modules.{
  Request, send_header, send_flow_mod, snmp_get, end_test, byestr, snmpget,
  oflops_schedule_timer_event, get_all, get_channels, echo_header, flow_id, in_flows,
}

-- The global variables.
pub record FlowTimer : Type 0 where
  pub pkt_size : ℕ
  pub datarate : ℕ
  pub data_snd_interval : ℕ
  pub table : ℤ
  pub print : ℤ
  pub flows : ℕ
  pub flow_gap : ℤ
  pub data_mac : EtherAddr
  pub first : ℕ → TimeVal
  pub last : ℕ → TimeVal
  pub delay : ℕ → Option (ℕ × ℕ)
  pub count : ℕ

-- SND_FLOW, beside BYESTR and SNMPGET.
abbrev pub snd_flow : ℕ
snd_flow = 1

-- What the code uses of other libraries: `strtol`, which returns an `int` here, the numbers of openflow.h
-- that msg.c does not use (OFPFW_ALL, the wildcards of the mask for a table other than 0, OFPP_IN_PORT), the
-- value of `inet_addr(network)`, and that of `inet_addr("10.1.1.1")`.
pub record Library : Type 0 where
  pub strtol : Chars → ℤ
  pub all_fields : ℕ
  pub wildcards : ℕ
  pub in_port : ℕ
  pub network : ℕ
  pub source : ℕ

-- `init` for one parameter. Of the tests on `pkt_size` and `table`, each of which asks for a value below
-- and above a range at once, none can hold.
pub set_param : Library → Chars → Chars → FlowTimer → Run FlowTimer
set_param lib name value s =
    let z = lib.strtol value in
    let size = to_unsigned (2 ^ 32) z in
    let rate = to_unsigned (2 ^ 64) z in
    if same name (b'p' ∷ b'k' ∷ b't' ∷ b'_' ∷ b's' ∷ b'i' ∷ b'z' ∷ b'e' ∷ [])
    then (if ltb size 64 && ltb 1500 size then aborted else ok (record s { pkt_size = size }))
    else if same name (b'd' ∷ b'a' ∷ b't' ∷ b'a' ∷ b'_' ∷ b'r' ∷ b'a' ∷ b't' ∷ b'e' ∷ [])
    then (if leb rate 0 || leb 1010 rate then aborted else ok (record s { datarate = rate }))
    else if same name (b't' ∷ b'a' ∷ b'b' ∷ b'l' ∷ b'e' ∷ [])
    then (if ltb_ℤ z (pos 0) && ltb_ℤ (pos 2) z then aborted else ok (record s { table = z }))
    else if same name (b'f' ∷ b'l' ∷ b'o' ∷ b'w' ∷ b's' ∷ [])
    then (if ltb_ℤ (pos 0) z then ok (record s { flows = pos_part z }) else aborted)
    else if same name (b'p' ∷ b'r' ∷ b'i' ∷ b'n' ∷ b't' ∷ [])
    then ok (record s { print = z })
    else if same name (b'f' ∷ b'l' ∷ b'o' ∷ b'w' ∷ b'_' ∷ b'g' ∷ b'a' ∷ b'p' ∷ [])
    then (if ltb_ℤ z (pos 0) then aborted else ok (record s { flow_gap = z }))
    else ok s

-- The end of `init`: the interval between packets, in `uint64_t`.
pub set_interval : FlowTimer → Run FlowTimer
set_interval s =
    let bits = s.pkt_size * 8 * 1_000_000 % 2 ^ 64 in
    let rate = s.datarate * (1024 * 1024) % 2 ^ 64 in
    if rate == 0 then aborted else ok (record s { data_snd_interval = bits / rate })

no_flow : Flow
no_flow = record {
  mask = 0;
  in_port = 0;
  dl_src = record { byte0 = 0; byte1 = 0; byte2 = 0; byte3 = 0; byte4 = 0; byte5 = 0 };
  dl_dst = record { byte0 = 0; byte1 = 0; byte2 = 0; byte3 = 0; byte4 = 0; byte5 = 0 };
  dl_vlan = 0;
  dl_type = 0;
  nw_src = 0;
  nw_dst = 0;
  nw_proto = 0;
  tp_src = 0;
  tp_dst = 0;
}

module _ (of : OpenFlow) (lib : Library) where
  -- `start`, where `mac` is the address of the first data channel and the three calls of
  -- `gettimeofday` return `t1`, `t2` and `t3`. The second `memset` on `last` leaves `delay` as it is.
  pub start :
      Slots
      → Context
      → EtherAddr
      → TimeVal
      → TimeVal
      → TimeVal
      → FlowTimer
      → WcQueue
      → Run (List Request × FlowTimer × WcQueue)
  unfolding no_flow
  start fresh ctx mac t1 t2 t3 s q = do
    let never : TimeVal = record { tv_sec = pos 0; tv_usec = pos 0 }
    let (hello, n) = make_ofp_hello of
    let (flow_del, m) = make_ofp_flow_del of
    let to = to_unsigned 65536 (ctx.channels 2).of_port
    let (all, k) = make_ofp_flow_add of (record no_flow { mask = lib.all_fields }) to 1 120
    (id1, q1) ← oflops_schedule_timer_event fresh q (add_time t1 (pos 1) (pos 0)) snd_flow
    (id2, q2) ← oflops_schedule_timer_event fresh q1 (add_time t2 (pos 1) (pos 0)) snmpget
    (id3, q3) ← oflops_schedule_timer_event fresh q2 (add_time t3 (pos 60) (pos 0)) byestr
    ok (
      send_header hello
          ∷ send_flow_mod flow_del
          ∷ send_flow_mod (record all { priority = 0; flags = 0 })
          ∷ [],
      record s { data_mac = mac; first = λ i. never; last = λ i. never; delay = λ i. none },
      q3,
    )

  -- The flow of the branch for SND_FLOW, before the loop. `in_port` is converted to 16 bits.
  pub probe_flow : Context → FlowTimer → Flow
  probe_flow ctx s = record {
    mask = if eqb_ℤ s.table (pos 0) then 0 else lib.wildcards;
    in_port = to_unsigned 65536 (ctx.channels 1).of_port;
    dl_src = s.data_mac;
    dl_dst = record { byte0 = 0; byte1 = 21; byte2 = 23; byte3 = 123; byte4 = 146; byte5 = 10 };
    dl_vlan = 65535;
    dl_type = 2048;
    nw_src = lib.source;
    nw_dst = lib.network;
    nw_proto = 17;
    tp_src = 8080;
    tp_dst = 8080;
  }

  -- Its loop: one flow for each address from `network` on.
  unfoldable pub send_flows : ℕ → Flow → List Request
  send_flows zero fl = []
  send_flows (suc n) fl =
      let (b, len) = make_ofp_flow_add of fl lib.in_port 1 10 in
      send_flow_mod (record b {
        priority = 10;
        flags = of.send_flow_rem;
        idle_timeout = of.flow_permanent;
        hard_timeout = 10;
      })
      ∷ send_flows n (record fl { nw_dst = (fl.nw_dst + 1) % 2 ^ 32 })

  -- `handle_timer_event`
  pub handle_timer_event :
      Slots → Context → TimeVal → ℕ → FlowTimer → WcQueue → Run (List Request × WcQueue)
  handle_timer_event fresh ctx now str s q =
      let snmp : Run (List Request × WcQueue) = do
        (id, q') ← oflops_schedule_timer_event fresh q (add_time now (pos 1) (pos 0)) snmpget
        ok (get_all ctx.cpu_oids ++ get_channels ctx.n_channels 0 ctx.channels, q')
      in if str == byestr
        then ok (end_test (pos 1) ∷ [], q)
        else if str == snd_flow
        then ok (send_flows s.flows (probe_flow ctx s), q)
        else if str == snmpget
        then snmp
        else ok ([], q)

  -- `of_event_echo_request`: the answer.
  pub of_event_echo_request : ℕ → Header → Header
  of_event_echo_request echo_reply ofph = echo_header of echo_reply ofph.xid

-- `of_event_flow_removed`, for the address and the duration of the message.
unfoldable pub of_event_flow_removed :
    Library → Slots → TimeVal → ℕ → ℕ → ℕ → FlowTimer → WcQueue → Run (FlowTimer × WcQueue)
of_event_flow_removed lib fresh now nw_dst sec nsec s q =
    let id = flow_id lib.network nw_dst in
    let s' = record s {
      delay = update s.delay (pos_part id) (some (sec, nsec));
      count = s.count + 1;
    } in
    let bye : Run (FlowTimer × WcQueue) =
      oflops_schedule_timer_event fresh q (add_time now (pos 5) (pos 0)) byestr >>= λ r.
      ok (s', r.1) in
    if not (in_flows id s.flows)
    then ok (s, q)
    else if leb s.flows (s.count + 1)
    then bye
    else ok (s', q)

-- The end of `handle_pcap_event`: the time of a packet of the flow `id`.
unfoldable pub file_packet : ℤ → TimeVal → FlowTimer → Run FlowTimer
file_packet (negsuc i) ts s = fault
file_packet (pos i) ts s =
    let is_first = eqb_ℤ (s.first i).tv_sec (pos 0) in
    if ltb i s.flows
    then ok (record s {
      first = if is_first then update s.first i ts else s.first;
      last = update s.last i ts;
    })
    else fault

-- `handle_pcap_event`, on the channel OFLOPS_DATA1 or on another one.
unfoldable pub handle_pcap_event :
    Library
    → Context
    → (Bytes → ℕ → Option PktgenHdr)
    → ℕ
    → Bytes
    → ℕ
    → TimeVal
    → FlowTimer
    → Run FlowTimer
handle_pcap_event lib ctx nf_header ch packet caplen ts s =
    let read : Run FlowTimer = do
      (pkt, fl) ← extract_pktgen_pkt ctx nf_header (pos ch) packet caplen true
      elim pkt [
        | none ↦ ok s
        | some h ↦ elim fl [
          | none ↦ fault
          | some f ↦ file_packet (flow_id lib.network f.nw_dst) ts s
        ]
      ]
    in if ch == 1 then read else ok s

-- `destroy`, over `n` flows from number `i` on: what is logged of the flows that were seen.
pub record FlowReport : Type 0 where
  pub flow : ℕ
  pub first : TimeVal
  pub last : TimeVal
  pub apart : ℕ
  pub delay : Option (ℕ × ℕ)

unfoldable pub report_flows : ℕ → ℕ → FlowTimer → List FlowReport
report_flows zero i s = []
report_flows (suc n) i s =
    let rest = report_flows n (i + 1) s in
    if ltb_ℤ (pos 0) (s.first i).tv_sec
    then record {
      flow = i;
      first = s.first i;
      last = s.last i;
      apart = time_diff (s.first i) (s.last i);
      delay = s.delay i;
    }
      ∷ rest
    else rest

pub destroy : FlowTimer → List FlowReport
destroy s = report_flows s.flows 0 s
