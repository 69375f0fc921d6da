-- ===== src/Lifecycle/Tests.antt =====
-- The statements about oflops.c at concrete tests.
use oflops_turbo.Base.{Returns, ℕ, ◌≡◌, refl, false, [], ◌∷◌, map, none, some, ok, ◌>>=◌}
use oflops_turbo.Base.Int.{pos}
use oflops_turbo.EventQueue.{TimerSub}
use oflops_turbo.EventQueue.Tests.{three_slots, three, three-IsValid}
use oflops_turbo.Generator.{send_pkt}
use oflops_turbo.MsgBuf.{MsgBuf}
use oflops_turbo.ModuleRun.{timeout, null}
use oflops_turbo.ModuleRun.Tests.{
  channels, polls, channels-AllByPcap, channels-AllDistinct, polls-Polls,
}
use oflops_turbo.Lifecycle.First.{IsServed, main_test-IsServed}
use oflops_turbo.Lifecycle.{Process, Test, main_test, main_loop}
use oflops_turbo.Lifecycle.Later.{unattended, main_loop-later}

abbrev timersub : TimerSub
timersub a b = a

abbrev zeros : ℕ → ℕ
zeros i = 0

abbrev blank : MsgBuf
blank = record { buf = zeros; len = 64; start = 0; stop = 0 }

abbrev process : Process
process = record {
  curr_test = none;
  closed = [];
  started = false;
  end_traffic_generation = false;
  end_module = false;
  end_event = false;
  should_continue = pos 0;
  cancelled = false;
  timers = three;
  pe = null;
  outgoing = λ i. blank;
}

-- A test that sends a packet.
abbrev sending : Test
sending = record {
  channels = [];
  fresh = three_slots;
  start = λ q. q;
  steps = send_pkt 0 ∷ [];
  polls_before = timeout ∷ [];
  polls = timeout ∷ [];
  readings = [];
  messages = [];
  end_test = some (pos 0);
}

main_loop-later_example :
    (main_loop timersub (pos 1) false 0 (sending ∷ sending ∷ []) process >>= λ r. ok r.0) ≡ (
      main_test timersub (pos 1) false 0 sending process >>= λ r.
      ok (r.0 ∷ map unattended (sending ∷ [])))
main_loop-later_example =
    main_loop-later timersub (pos 1) false 0 sending (sending ∷ []) process (pos 0) refl

-- A test with channels and timers.
abbrev measuring : Test
measuring = record sending {
  channels = channels;
  start = λ q. three;
  polls_before = polls;
  polls = polls;
}

main_test-IsServed_example :
    Returns (IsServed measuring process) (main_test timersub (pos 1) false 0 measuring process)
main_test-IsServed_example =
    main_test-IsServed timersub (pos 1) false 0 measuring process
      (record { end_traffic_generation = refl; end_module = refl; end_event = refl })
      (record {
        by_pcap = channels-AllByPcap;
        distinct = channels-AllDistinct;
        polls_before = polls-Polls;
        polls = polls-Polls;
        timers = three-IsValid;
        timers_disabled = refl;
      })
