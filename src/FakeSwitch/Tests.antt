-- ===== src/FakeSwitch/Tests.antt =====
-- The statements about cbench/fakeswitch.c at a concrete switch, with numbers of OpenFlow 1.0.
use oflops_turbo.Base.{
  if◌then◌else◌, ap, ltb, ℕ, zero, suc, ◌+◌, ◌/◌, ◌%◌, ◌≤◌, ◌<◌, ◌≡◌, refl, inl, false, [], ◌∷◌,
  ◌++◌, arith, length, ok, Returns,
}
use oflops_turbo.Base.Int.{pos}
use oflops_turbo.Base.Memory.{slice}
use oflops_turbo.Time.{TimeVal}
use oflops_turbo.MsgBuf.{Bytes, MsgBuf, Sent, sent, refused}
use oflops_turbo.MsgBuf.Inv.{IsValid, contents, Holds}
use oflops_turbo.FakeSwitch.{FakeSwitch, latency, throughput, read_loop, prepare, probes_to_send}
use oflops_turbo.FakeSwitch.Reply.{Protocol, IsProtocol}
use oflops_turbo.FakeSwitch.Frames.{handle_all, IsFrame, read_loop_frames}
use oflops_turbo.FakeSwitch.Single.{Call, Waits, due, calls, calls-Waits}
use oflops_turbo.MsgBuf.Socket.{IsWrite}
use oflops_turbo.FakeSwitch.Rate.{Queued, prepare_fills}

abbrev openflow : Protocol
openflow = record {
  version = 1;
  hello = 0;
  error = 1;
  echo_request = 2;
  echo_answer = 3;
  vendor = 4;
  features_request = 5;
  packet_out = 13;
  flow_mod = 14;
  add = 0;
  modify_strict = 2;
  bad_request = 1;
  bad_vendor = 3;
  command_offset = 56;
  int_bytes = λ n. n % 256 ∷ n / 256 % 256 ∷ n / 65536 % 256 ∷ n / 16777216 % 256 ∷ [];
}

openflow-IsProtocol : IsProtocol openflow
openflow-IsProtocol = record {
  packet_out = refl;
  flow_mod = refl;
  features_request = refl;
  vendor = refl;
  echo_request = refl;
}

abbrev zeros : ℕ → ℕ
zeros i = 0

abbrev noon : TimeVal
noon = record { tv_sec = pos 10; tv_usec = pos 900_000 }

abbrev blank : MsgBuf
blank = record { buf = zeros; len = 64; start = 0; stop = 0 }

blank-IsValid : IsValid blank
blank-IsValid = record { ordered = omega arith; bounded = omega arith; room = omega arith }

abbrev idle : FakeSwitch
idle = record {
  id = 1;
  inbuf = blank;
  outbuf = blank;
  mode = latency;
  probe_state = pos 1;
  count = 0;
  ready_to_send = 1;
  probe_size = 82;
  delay = 500;
  delay_start = noon;
  total_mac_addresses = 4;
  current_mac_address = 0;
}

-- A packet_out without actions.
abbrev answer : Bytes
answer = 1 ∷ 13 ∷ 0 ∷ 8 ∷ 0 ∷ 0 ∷ 0 ∷ 7 ∷ []

-- It and the first three bytes of another message.
abbrev memory : ℕ → ℕ
memory i = elim i [
  | zero ↦ 1
  | suc i ↦ elim i [
    | zero ↦ 13
    | suc i ↦ elim i [
      | zero ↦ 0
      | suc i ↦ elim i [
        | zero ↦ 8
        | suc i ↦ elim i [
          | zero ↦ 0
          | suc i ↦ elim i [
            | zero ↦ 0
            | suc i ↦ elim i [ zero ↦ 0 | suc i ↦ elim i [ zero ↦ 7 | suc i ↦ 1 ] ]
          ]
        ]
      ]
    ]
  ]
]

abbrev arrived : MsgBuf
arrived = record { buf = memory; len = 64; start = 0; stop = 11 }

arrived-Holds : Holds (answer ++ (1 ∷ 1 ∷ 1 ∷ [])) arrived
unfolding slice
arrived-Holds = (record { ordered = omega arith; bounded = omega arith; room = omega arith }, refl)

answer-IsFrame : IsFrame openflow zeros noon answer
answer-IsFrame = record { header = omega arith; sized = refl; command = λ e. absurd (omega arith) }

read_loop_frames_example :
    (g : FakeSwitch) × (r : MsgBuf) × (handle_all openflow zeros noon idle (answer ∷ []) ≡ ok g)
    × Holds (1 ∷ 1 ∷ 1 ∷ []) r
    × (read_loop openflow zeros noon 12 (record idle { inbuf = arrived })
        ≡ ok (record g { inbuf = r }))
read_loop_frames_example =
    read_loop_frames openflow zeros noon 12 idle arrived (answer ∷ []) (1 ∷ 1 ∷ 1 ∷ [])
      blank-IsValid arrived-Holds (answer-IsFrame, tt) (inl (omega arith)) (omega arith)

-- A switch for which no probe waits; the socket takes 5 bytes in the first of two calls and all in the
-- second.
abbrev unasked : FakeSwitch
unasked = record idle { probe_state = pos 0 }

abbrev count_taken : Sent → ℕ
count_taken (sent n) = n
count_taken (refused again) = 0

abbrev takes : ℕ → Call
takes n = record {
  now = noon;
  write = λ xs. sent (if ltb n (length xs) then n else length xs);
  again = false;
}

takes-IsWrite : (n : ℕ) → IsWrite (takes n).write
takes-IsWrite n xs k e =
    let k_is : (if ltb n (length xs) then n else length xs) ≡ k = ap count_taken e in
    ground (arith, k_is)

calls-Waits_example :
    Returns
      (Waits openflow zeros (contents blank ++ due openflow zeros unasked))
      (calls openflow zeros (takes 5 ∷ takes 100 ∷ []) unasked)
calls-Waits_example =
    calls-Waits openflow zeros (takes 5) (takes 100 ∷ []) unasked
      (record {
        single = record { mode = refl; waiting = inl refl };
        ready = refl;
        macs = omega arith;
        valid = blank-IsValid;
      })
      (takes-IsWrite 5, (takes-IsWrite 100, tt))

abbrev flood : FakeSwitch
flood = record idle { mode = throughput }

prepare_fills_example :
    Returns
      (λ g.
        (length (contents g.outbuf) ≤ 65536)
        × (65536 < length (contents g.outbuf) + 82)
        × Queued openflow (λ n. refl) zeros noon flood (probes_to_send openflow zeros noon flood) g)
      (prepare openflow zeros noon flood)
prepare_fills_example =
    prepare_fills openflow (λ n. refl) zeros noon flood blank-IsValid (omega arith) refl refl refl
      (omega arith)
