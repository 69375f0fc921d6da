-- ===== src/Modules.antt =====
-- example_modules: the measurement modules, each of which is a test that the library loads and calls.
-- What the modules share is here: what a handler asks of the library is recorded, but for the timers, which
-- are those of EventQueue.
pub mod Params
pub mod EchoDelay
pub mod FlowTimer
pub mod Reactive
pub mod ActionDelay
mod Tests
use oflops_turbo.Base.{ℕ, zero, suc, ◌+◌, Bool, false, ltb, List, [], ◌∷◌, Run}
use oflops_turbo.Base.Int.{ℤ, pos, negsuc, ◌-ℤ◌}
use oflops_turbo.Timer.{to_int32}
use oflops_turbo.Time.{TimeVal}
use oflops_turbo.EventQueue.{Slots, WcQueue, wc_event_add}
use oflops_turbo.Msg.{OpenFlow, Header, FlowMod}
use oflops_turbo.Msg.Builders.{make_ofp_hello}
use oflops_turbo.Setup.{Channel}

-- BYESTR and SNMPGET, strings that name timed events.
abbrev pub byestr : ℕ
byestr = 0

abbrev pub snmpget : ℕ
snmpget = 2

-- What a handler asks of the library.
pub data Request : Type 0 where
  send_header : Header → Request
  send_flow_mod : FlowMod → Request
  snmp_get : List ℤ → Request
  end_test : ℤ → Request

-- `oflops_schedule_timer_event` of test_module.c.
unfoldable pub oflops_schedule_timer_event : Slots → WcQueue → TimeVal → ℕ → Run (ℕ × WcQueue)
oflops_schedule_timer_event fresh q tv arg = wc_event_add fresh q 0 arg tv

-- The loops of the branch for SNMPGET.
unfoldable pub get_all : List (List ℤ) → List Request
get_all [] = []
get_all (oid ∷ oids) = snmp_get oid ∷ get_all oids

unfoldable pub get_channels : ℕ → ℕ → (ℕ → Channel) → List Request
get_channels zero i channels = []
get_channels (suc n) i channels =
    snmp_get (channels i).in_oid ∷ snmp_get (channels i).out_oid ∷ get_channels n (i + 1) channels

-- A hello message with another type and transaction id.
unfoldable pub echo_header : OpenFlow → ℕ → ℕ → Header
echo_header of type xid =
    let (hello, len) = make_ofp_hello of in record hello { type = type; xid = xid }

-- `ntohl(address) - ntohl(inet_addr(network))`, as an `int`, and the test that it is one of the flows.
unfoldable pub flow_id : ℕ → ℕ → ℤ
flow_id network address = to_int32 (pos address -ℤ pos network)

unfoldable pub in_flows : ℤ → ℕ → Bool
in_flows (pos i) flows = ltb i flows
in_flows (negsuc i) flows = false
