-- ===== src/Modules/EchoDelay.antt =====
-- example_modules/openflow_echo_delay/echo_test.c: the module that measures the delay of the control
-- channel with echo messages. Its global variables are a record, and the array `echo_data` is a function
-- from indices with the length `max_entries`; an access outside of it, or of a packet, is a fault.
-- The strings that name the timed events are numbers here. What a handler asks of the library, but for
-- the timers, is recorded. Logging and the statistics that the library gsl computes are not modelled.
pub mod Pace
pub mod Sending
pub mod Minute
pub mod Frame
pub mod Capture
pub mod Report
use oflops_turbo.Base.{
  ℕ, zero, suc, ◌+◌, ◌*◌, ◌/◌, ◌%◌, ◌^◌, ◌-◌, Bool, true, false, ◌&&◌, List, [], Option, none, some,
  ◌∷◌, ◌++◌, ltb, leb, ◌==◌, if◌then◌else◌, Run, ok, aborted, fault, ◌>>=◌,
}
use oflops_turbo.Base.Int.{ℤ, pos, pos_part, neg_part, ltb_ℤ}
use oflops_turbo.Base.Memory.{update}
use oflops_turbo.Time.{TimeVal, TimeSpec, million, add_time, time_diff}
use oflops_turbo.EventQueue.{Slots, WcQueue, TimerSub, wc_event_add}
use oflops_turbo.Timer.{TimerEvent, Action, wait, run, event_round}
use oflops_turbo.MsgBuf.{Bytes}
use oflops_turbo.Msg.{OpenFlow, Header, FlowMod}
use oflops_turbo.Msg.Builders.{make_ofp_hello, make_ofp_flow_del}
use oflops_turbo.Msg.Probe.{byte_of}
use oflops_turbo.Generator.Extract.{long_of}
use oflops_turbo.Setup.{Chars, Context, Channel}
use oflops_turbo.Options.{same}
use oflops_turbo.Modules.{
  Request, send_header, send_flow_mod, snmp_get, end_test, byestr, snmpget,
  oflops_schedule_timer_event, get_all, get_channels, echo_header,
}

-- `struct entry`, the fields that are used.
pub record EchoEntry : Type 0 where
  pub snd : TimeVal
  pub rcv : TimeVal

-- The length of `echo_data`.
abbrev pub max_entries : ℕ
max_entries = 1_000_000

-- The global variables.
pub record EchoTest : Type 0 where
  pub delay : ℕ
  pub trans_id : ℕ
  pub echo_data : ℕ → EchoEntry
  pub echo_data_count : ℕ

-- ECHO_REQUEST, beside BYESTR and SNMPGET.
abbrev pub echo_request : ℕ
echo_request = 1

-- What a handler has asked so far, with the global variables and the timers of the context.
pub record EchoRun : Type 0 where
  pub requests : List Request
  pub state : EchoTest
  pub timers : WcQueue

-- `add_time(&now, delay/1000000, delay%1000000)`
unfoldable pub after_delay : TimeVal → ℕ → TimeVal
after_delay now delay = add_time now (pos (delay / million)) (pos (delay % million))

-- `init` for one parameter: the value of `delay` as `strtol` reads it, turned to `uint64_t`.
pub set_param : (Chars → ℕ) → Chars → Chars → EchoTest → Run EchoTest
set_param strtoul name value s =
    let delay = strtoul value in
    if same name (b'd' ∷ b'e' ∷ b'l' ∷ b'a' ∷ b'y' ∷ [])
    then (if leb delay 100 then aborted else ok (record s { delay = delay }))
    else ok s

module _ (of : OpenFlow) where
  -- `start`, where the three calls of `gettimeofday` return `t1`, `t2` and `t3`.
  unfoldable pub start : Slots → TimeVal → TimeVal → TimeVal → EchoTest → WcQueue → Run EchoRun
  start fresh t1 t2 t3 s q = do
    (id1, q1) ← oflops_schedule_timer_event fresh q (after_delay t1 s.delay) echo_request
    (id2, q2) ← oflops_schedule_timer_event fresh q1 (add_time t2 (pos 1) (pos 0)) snmpget
    (id3, q3) ← oflops_schedule_timer_event fresh q2 (add_time t3 (pos 60) (pos 0)) byestr
    let (hello, len) = make_ofp_hello of
    let (flow_del, size) = make_ofp_flow_del of
    ok (record {
      requests = send_header hello ∷ send_flow_mod flow_del ∷ [];
      state = s;
      timers = q3;
    })

  -- `handle_timer_event`, where `now` is what the clock returns when the next event is arranged.
  unfoldable pub handle_timer_event : Slots → Context → TimeVal → ℕ → EchoRun → Run EchoRun
  handle_timer_event fresh ctx now str r =
      let s = r.state in
      let bye = record r { requests = r.requests ++ (end_test (pos 1) ∷ []) } in
      let probe : Run EchoRun = do
        (id, q) ← oflops_schedule_timer_event fresh r.timers (after_delay now s.delay) echo_request
        ok (record {
          requests = r.requests ++ (send_header (echo_header of of.echo_request s.trans_id) ∷ []);
          state = record s { trans_id = s.trans_id + 1 };
          timers = q;
        })
      in let snmp : Run EchoRun = do
        (id, q) ← oflops_schedule_timer_event fresh r.timers (add_time now (pos 10) (pos 0)) snmpget
        ok (record r {
          requests =
              r.requests ++ (get_all ctx.cpu_oids ++ get_channels ctx.n_channels 0 ctx.channels);
          timers = q;
        })
        in if str == byestr
          then ok bye
          else if str == echo_request
          then probe
          else if str == snmpget
          then snmp
          else ok r

  -- `of_event_echo_request`: the answer.
  pub of_event_echo_request : ℕ → Header → Header
  of_event_echo_request echo_reply ofph = echo_header of echo_reply ofph.xid

  -- The rounds of `event_loop` with this module, each with what the clocks return: for `event_loop`
  -- itself, and then for the handler.
  module _ (timersub : TimerSub) (fresh : Slots) (ctx : Context) where
    unfoldable pub echo_round : TimeVal → TimeSpec → TimeVal → EchoRun → Run EchoRun
    echo_round now ts later r = do
      (action, q) ← event_round timersub now ts r.timers
      let r' = record r { timers = q }
      elim action [
        | wait until ↦ ok r'
        | run event ↦ elim event [
          | none ↦ ok r'
          | some e ↦ handle_timer_event fresh ctx later e.arg r'
        ]
      ]

    unfoldable pub echo_rounds : List (TimeVal × TimeSpec × TimeVal) → EchoRun → Run EchoRun
    echo_rounds [] r = ok r
    echo_rounds ((now, ts, later) ∷ readings) r =
        echo_round now ts later r >>= λ r'. echo_rounds readings r'

-- `echo_data[i]`
unfoldable pub entry : (ℕ → EchoEntry) → ℕ → Run EchoEntry
entry d i = if ltb i max_entries then ok (d i) else fault

unfoldable pub put_entry : EchoTest → ℕ → (EchoEntry → EchoEntry) → Run EchoTest
put_entry s i f =
    if ltb i max_entries
    then ok (record s { echo_data = update s.echo_data i (f (s.echo_data i)) })
    else fault

-- The switch of `handle_pcap_event`, for a message with this type and transaction id.
unfoldable pub file_echo : ℕ → ℕ → ℕ → ℕ → TimeVal → EchoTest → Run EchoTest
file_echo of_request of_reply type xid ts s =
    let known = ltb 0 xid && leb xid s.trans_id in
    if type == of_request
    then (if known
        then put_entry (record s { echo_data_count = s.echo_data_count + 1 }) xid
            (λ e. record e { snd = ts })
        else ok s)
    else if type == of_reply
    then (if known then put_entry s xid (λ e. record e { rcv = ts }) else ok s)
    else ok s

-- `handle_pcap_event` for a packet of `caplen` bytes, on the control channel or not. A test
-- `len < n`, with what has been taken off `len`, is `caplen < off + n` here.
unfoldable pub handle_pcap_event : ℕ → ℕ → Bool → Bytes → ℕ → TimeVal → EchoTest → Run EchoTest
handle_pcap_event of_request of_reply is_control packet caplen ts s =
    let read : Run EchoTest = do
      ihl ← byte_of packet 14
      let ip_end = 14 + 4 * (ihl % 16)
      let rest : Run EchoTest = do
        doff ← byte_of packet (ip_end + 12)
        let at = ip_end + 4 * (doff / 16)
        let message : Run EchoTest = do
          type ← byte_of packet (at + 1)
          let echo : Run EchoTest =
              long_of packet (at + 4) >>= λ xid. file_echo of_request of_reply type xid ts s
          if type == of_request then echo else if type == of_reply then echo else ok s
        if ltb caplen at then ok s else message
      if ltb caplen ip_end then ok s else rest
    in if is_control then read else ok s

-- The loop of `destroy` over `n` entries from number `i` on: the delays, and how many are lost.
unfoldable pub measured : EchoEntry → Bool
measured e = ltb_ℤ (pos 0) e.snd.tv_sec && ltb_ℤ (pos 0) e.rcv.tv_sec

unfoldable pub collect_delays : ℕ → ℕ → (ℕ → EchoEntry) → Run (List ℕ × ℕ)
collect_delays zero i d = ok ([], 0)
collect_delays (suc n) i d = do
  e ← entry d i
  (delays, lost) ← collect_delays n (i + 1) d
  ok (if measured e then (time_diff e.snd e.rcv ∷ delays, lost) else (delays, lost + 1))

-- `destroy`: the delays that the statistics are made of, and how many are lost.
unfoldable pub destroy : EchoTest → Run (List ℕ × ℕ)
destroy s = collect_delays s.echo_data_count 1 s.echo_data
