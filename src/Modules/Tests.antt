-- ===== src/Modules/Tests.antt =====
-- The statements about the measurement modules at concrete clocks, packets and arguments.
use oflops_turbo.Base.{
  ℕ, inl, ◌-◌, if◌then◌else◌, ◌+◌, ◌*◌, ◌/◌, ◌%◌, ◌^◌, ◌≤◌, ◌<◌, ◌==◌, ◌≡◌, refl, true, false, List,
  [], ◌∷◌, ◌++◌, arith, replicate, Run, none, ok, fault, ◌>>=◌, Returns,
}
use oflops_turbo.Base.Int.{pos, ◌+ℤ◌, ◌*ℤ◌}
use oflops_turbo.Base.Memory.{slice}
use oflops_turbo.Time.{million}
use oflops_turbo.EventQueue.{WcQueue}
use oflops_turbo.EventQueue.Order.{IsValid}
use oflops_turbo.EventQueue.Tests.{at_time, three_slots}
use oflops_turbo.Timer.Tests.{timersub, timersub-IsTimerSub, clock}
use oflops_turbo.Msg.{OpenFlow, EtherAddr}
use oflops_turbo.Setup.{Chars}
use oflops_turbo.Setup.Tests.{context}
use oflops_turbo.Base.Memory.{update}
use oflops_turbo.Setup.{oflops_default_context}
use oflops_turbo.Generator.Packets.{Packet, PktDetails, ip_words}
use oflops_turbo.Generator.Packets.Rotation.{IsAt}
use oflops_turbo.Generator.Checksum.{ip_sum_calc, fold_carries, sum_words}
use oflops_turbo.Generator.Extract.Sent.{InRange, packet_bytes}
use oflops_turbo.Generator.Tests.{first_packet, running, address}
use oflops_turbo.Modules.FlowTimer.{FlowTimer, Library, handle_pcap_event}
use oflops_turbo.Modules.FlowTimer.Flows.{
  filed, handle_pcap_event-packet_bytes, handle_pcap_event-IsAt,
}
use oflops_turbo.Modules.Reactive.{Reactive}
use oflops_turbo.Modules.Reactive.AllReceived
use oflops_turbo.Modules.Reactive.AllReceived.{Captured, IsEnding, captures-IsEnding}
use oflops_turbo.Modules.Params.{init_params}
use oflops_turbo.Modules.Params.Applied.{Param, AllParams, argument, init_params-joined}
use oflops_turbo.Modules.ActionDelay
use oflops_turbo.Modules.ActionDelay.{output, strip_vlan, set_dl_src, other, parse_actions}
use oflops_turbo.Modules.ActionDelay.Written.{alone, address as with_address, setting, listed}
use oflops_turbo.Modules.ActionDelay.Actions.{extended, parse_actions-listed}
use oflops_turbo.Modules.EchoDelay.{EchoTest, destroy, start, echo_rounds}
use oflops_turbo.Modules.EchoDelay.Minute.{IsNumbered, start-IsNumbered}
use oflops_turbo.Modules.EchoDelay.Frame.{EchoPacket, IsFramed}
use oflops_turbo.Modules.EchoDelay.Capture.{captures}
use oflops_turbo.Modules.EchoDelay.Report.{captures-destroy}

abbrev numbers : OpenFlow
numbers = record {
  version = 1;
  hello = 0;
  echo_request = 2;
  features_request = 5;
  flow_mod = 14;
  stats_request = 16;
  add = 0;
  modify = 1;
  delete = 3;
  flow_permanent = 0;
  send_flow_rem = 1;
  output = 0;
  all_wildcards = 4_194_303;
  no_port = 65535;
  flow_stats = 1;
  aggregate_stats = 2;
  port_stats = 4;
  sizeof_header = 8;
  sizeof_hello = 8;
  sizeof_flow_mod = 72;
  sizeof_action_output = 8;
  sizeof_stats_request = 12;
  sizeof_flow_stats_request = 44;
  sizeof_aggregate_stats_request = 44;
  sizeof_port_stats_request = 8;
  swap = λ n. n % 65536 / 256 + n % 256 * 256;
}

abbrev empty_queue : WcQueue
empty_queue = record {
  array = three_slots;
  length = 10;
  size = 0;
  timers_enabled = false;
  event_id = 0;
}

empty_queue-IsValid : IsValid empty_queue
empty_queue-IsValid = record { heap = λ c lo hi. absurd (omega arith); room = omega arith }

-- The module with one request in a second, as it begins.
abbrev fresh_test : EchoTest
fresh_test = record {
  delay = 1_000_000;
  trans_id = 1;
  echo_data = λ i. record { snd = at_time 0; rcv = at_time 0 };
  echo_data_count = 0;
}

start-IsNumbered_example : Returns (IsNumbered numbers 1_000_000) (
    start numbers three_slots (at_time 1) (at_time 1) (at_time 1) fresh_test empty_queue >>= λ r.
    echo_rounds numbers timersub three_slots context
      ((at_time 2, clock, at_time 2) ∷ (at_time 3, clock, at_time 3) ∷ [])
      r)
unfolding ◌+ℤ◌ ◌*ℤ◌
start-IsNumbered_example =
    start-IsNumbered numbers timersub timersub-IsTimerSub three_slots context 1_000_000
      (omega arith) (omega arith) (at_time 1) (at_time 1) (at_time 1) (omega arith, omega arith)
      (omega arith, omega arith) (omega arith, omega arith) (omega arith) (omega arith) fresh_test
      empty_queue ((at_time 2, clock, at_time 2) ∷ (at_time 3, clock, at_time 3) ∷ []) refl refl
      empty_queue-IsValid refl refl refl
      (
        at_second,
        ((omega arith, omega arith), (at_second, ((omega arith, omega arith), omega arith))),
      )
  where
    at_second : (0 ≤ 0 × 0 < million) × (0 ≤ 0 × 0 < million)
    at_second = ((omega arith, omega arith), (omega arith, omega arith))

-- A message with the id 1, in a packet with headers of 14, 20 and 20 bytes.
abbrev packet : ℕ → ℕ → EchoPacket
packet type n = record {
  ether = replicate 14 0;
  ip_first = 69;
  ip_rest = replicate 19 0;
  tcp_front = replicate 12 0;
  tcp_offset = 80;
  tcp_rest = replicate 7 0;
  version = 1;
  type = type;
  len_high = 0;
  len_low = 8;
  xid0 = 0;
  xid1 = 0;
  xid2 = 0;
  xid3 = 1;
  payload = [];
  ts = at_time n;
}

packet-IsFramed : (type n : ℕ) → IsFramed (packet type n)
packet-IsFramed type n = record {
  ether_length = refl;
  ip_length = refl;
  front_length = refl;
  tcp_length = refl;
}

-- The request was sent at second 5, and the reply comes at second 8.
captures-destroy_example :
    (captures 2 3 (packet 2 5 ∷ packet 3 8 ∷ []) (record fresh_test { trans_id = 2 }) >>= destroy)
    ≡ ok (slice (λ i. 3_000_000) 1 1, 0)
unfolding ◌+ℤ◌ ◌*ℤ◌
captures-destroy_example =
    captures-destroy 2 3 1 (packet 2 5 ∷ packet 3 8 ∷ []) (record fresh_test { trans_id = 2 })
      (λ i. 3_000_000) refl (packet-IsFramed 2 5, (packet-IsFramed 3 8, tt)) refl (omega arith) refl
      refl
      λ i lo hi.
        let one : (1 == i) ≡ true = ground arith in
        rw one (record { seen = refl; answered = refl; apart = refl; short = omega arith })

-- "a=1 b=2"
abbrev first_param : Param
first_param = record { name = b'a' ∷ []; value = b'1' ∷ [] }

abbrev second_param : Param
second_param = record { name = b'b' ∷ []; value = b'2' ∷ [] }

-- A module that collects the values.
abbrev collect_values : Chars → Chars → List Chars → Run (List Chars)
collect_values name value s = ok (s ++ (value ∷ []))

two-AllParams : AllParams (first_param ∷ second_param ∷ [])
two-AllParams = (
  (((refl, (refl, refl)), tt), ((refl, refl), tt)),
  ((((refl, (refl, refl)), tt), ((refl, refl), tt)), tt),
)

init_params-joined_example :
    (init_params collect_values (argument 1 first_param (second_param ∷ []) (7 ∷ 0 ∷ [])) []
      ≡ ok ((b'1' ∷ []) ∷ (b'2' ∷ []) ∷ []))
    × (init_params collect_values (argument 1 first_param (second_param ∷ []) []) [] ≡ fault)
init_params-joined_example =
    init_params-joined collect_values 1 first_param (second_param ∷ []) [] two-AllParams 7 []

-- Three flows, to the addresses from 1 on.
abbrev library : Library
library = record {
  strtol = λ s. pos 1;
  all_fields = 4_194_303;
  wildcards = 1;
  in_port = 65528;
  network = 1;
  source = 0;
}

abbrev three_flows : FlowTimer
three_flows = record {
  pkt_size = 100;
  datarate = 100;
  data_snd_interval = 7;
  table = pos 0;
  print = pos 0;
  flows = 3;
  flow_gap = pos 0;
  data_mac = address;
  first = λ i. at_time 0;
  last = λ i. at_time 0;
  delay = λ i. none;
  count = 0;
}

-- The generator has gone through its range once.
abbrev once_around : PktDetails
once_around = record running { seq_num = 3 }

once_around-IsAt : IsAt 3 once_around first_packet
unfolding ip_words ip_sum_calc fold_carries sum_words
once_around-IsAt = record {
  here = refl;
  ordered = omega arith;
  bounded = omega arith;
  turns = 1;
  place = 0;
  in_range = omega arith;
  sent = omega arith;
  daddr = omega arith;
  seq_num = omega arith;
  tot_len = omega arith;
  check = refl;
}

first_packet-InRange : InRange first_packet
first_packet-InRange = record {
  saddr = omega arith;
  daddr = omega arith;
  source = omega arith;
  dest = omega arith;
  seq_num = omega arith;
  tv_sec = omega arith;
  tv_usec = omega arith;
}

handle_pcap_event-IsAt_example :
    handle_pcap_event library context
      (λ b n. none)
      1
      (packet_bytes address address first_packet [])
      62
      (at_time 5)
      three_flows
    ≡ ok (filed three_flows (3 % 3) (at_time 5))
unfolding oflops_default_context update
handle_pcap_event-IsAt_example =
    handle_pcap_event-IsAt library context (λ b n. none) (omega arith) (omega arith) refl
      (omega arith) address address 3 once_around first_packet [] 62 (at_time 5) three_flows
      once_around-IsAt refl refl first_packet-InRange (omega arith) (omega arith)

-- A packet to an address that no flow has.
abbrev stray_packet : Packet
stray_packet = record first_packet { daddr = 9 }

handle_pcap_event-packet_bytes_example :
    handle_pcap_event library context
      (λ b n. none)
      1
      (packet_bytes address address stray_packet [])
      62
      (at_time 5)
      three_flows
    ≡ fault
unfolding oflops_default_context update
handle_pcap_event-packet_bytes_example =
    handle_pcap_event-packet_bytes library context (λ b n. none) (omega arith) (omega arith) refl
      (omega arith) address address stray_packet [] 62 (at_time 5) three_flows
      (record {
        saddr = omega arith;
        daddr = omega arith;
        source = omega arith;
        dest = omega arith;
        seq_num = omega arith;
        tv_sec = omega arith;
        tv_usec = omega arith;
      })
      (omega arith) (omega arith)

-- Two flows, of which nothing was received.
abbrev two_flows : Reactive
two_flows = record {
  pkt_size = 100;
  proberate = 100;
  probe_snd_interval = 7;
  print = pos 0;
  flows = 2;
  ip_received = λ i. false;
  ip_received_count = 0;
  flow_send = λ i. at_time 0;
  flow_controller = λ i. at_time 0;
  flow_received = λ i. at_time 0;
}

abbrev capture_to : ℕ → Captured
capture_to daddr = record {
  to = address;
  from = address;
  packet = record first_packet { daddr = daddr };
  rest = [];
  len = 62;
  ts = at_time 5;
  now = at_time 6;
}

capture_to-InRange : (daddr : ℕ) → daddr < 2 ^ 32 → InRange (record first_packet { daddr = daddr })
capture_to-InRange daddr h = record {
  saddr = omega arith;
  daddr = h;
  source = omega arith;
  dest = omega arith;
  seq_num = omega arith;
  tv_sec = omega arith;
  tv_usec = omega arith;
}

captures-IsEnding_example :
    Returns (IsEnding 1 (capture_to 2 ∷ capture_to 1 ∷ []) two_flows empty_queue) (
      AllReceived.captures 1 three_slots context
        (λ b n. none)
        (capture_to 2 ∷ capture_to 1 ∷ [])
        two_flows
        empty_queue)
unfolding oflops_default_context update
captures-IsEnding_example =
    captures-IsEnding 1 three_slots context (λ b n. none) (omega arith) (omega arith) refl
      (capture_to 2 ∷ capture_to 1 ∷ []) two_flows empty_queue
      (
        (capture_to-InRange 2 (omega arith), omega arith),
        ((capture_to-InRange 1 (omega arith), omega arith), tt),
      )
      (omega arith) refl refl empty_queue-IsValid refl

-- `strtol` on digits, and the constants of openflow.h.
abbrev digits_value : ℕ → ℕ → Chars → ℕ
digits_value base acc [] = acc
digits_value base acc (c ∷ cs) = digits_value base (acc * base + (c - 48)) cs

abbrev action_library : ActionDelay.Library
action_library = record {
  strtol = λ base t. pos (digits_value base 0 t);
  strtoll = λ base t. pos (digits_value base 0 t);
  ofpat = λ n.
      if n == 0
      then output
      else if n == 3
      then strip_vlan
      else if n == 4
      then set_dl_src
      else other;
  size_of = λ k. elim k [ set_dl_src ↦ 16 | _ ↦ 8 ];
}

abbrev new_source : EtherAddr
new_source = record { byte0 = 0; byte1 = 21; byte2 = 23; byte3 = 123; byte4 = 146; byte5 = 10 }

-- The actions 3, 4/0015177b920a and 0/12 behind an empty buffer.
parse_actions-listed_example :
    parse_actions action_library true
      (listed (alone 3) (with_address 4 new_source ∷ setting 0 (49 ∷ 50 ∷ []) 12 ∷ []))
      (record { command = []; command_len = 0 })
    ≡ ok (
        extended action_library
          (record { command = []; command_len = 0 })
          (alone 3 ∷ with_address 4 new_source ∷ setting 0 (49 ∷ 50 ∷ []) 12 ∷ []))
parse_actions-listed_example =
    parse_actions-listed action_library true (alone 3)
      (with_address 4 new_source ∷ setting 0 (49 ∷ 50 ∷ []) 12 ∷ [])
      (record { command = []; command_len = 0 })
      (
        (omega arith, refl),
        (
          (
            omega arith,
            (
              inl refl,
              record {
                byte0 = omega arith;
                byte1 = omega arith;
                byte2 = omega arith;
                byte3 = omega arith;
                byte4 = omega arith;
                byte5 = omega arith;
              },
            ),
          ),
          ((omega arith, ((refl, (refl, tt)), (refl, omega arith))), tt),
        ),
      )
