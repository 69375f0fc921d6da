-- ===== src/Lifecycle/First.antt =====
-- A test whose threads have not been told to end.
use mathlib.Core.Path.{subst}
use oflops_turbo.Base.{
  ℕ, ◌≡◌, refl, ap, ◌∙◌, sym, Bool, true, false, List, ◌++◌, Returns, returns, Returns-bind,
  Returns-map,
}
use oflops_turbo.Base.Int.{ℤ}
use oflops_turbo.EventQueue.{TimerSub}
use oflops_turbo.EventQueue.Order.{IsValid}
use oflops_turbo.Timer.{timer_init, event_loop}
use oflops_turbo.Timer.Loop.{Delivered, event_loop_delivers}
use oflops_turbo.ModuleRun.Channels.{AllByPcap, AllDistinct, Polls, all_packets}
use oflops_turbo.ModuleRun.Delivery.{test_module_loop-delivers, test_module_loop-waits}
use oflops_turbo.Lifecycle.{
  Process, Test, Outcome, reset_context, begin_test, end_threads, while_not, set_started,
  run_test_module, main_test,
}

-- A context in which no flag that ends a thread is set.
pub record IsRunning (p : Process) : Type 0 where
  pub end_traffic_generation : p.end_traffic_generation ≡ false
  pub end_module : p.end_module ≡ false
  pub end_event : p.end_event ≡ false

-- What the world does in a test whose channels capture with libpcap.
pub record IsGood (t : Test) (p : Process) : Type 0 where
  pub by_pcap : AllByPcap t.channels
  pub distinct : AllDistinct t.channels
  pub polls_before : Polls t.channels t.polls_before
  pub polls : Polls t.channels t.polls
  pub timers : IsValid (t.start (timer_init t.fresh p.timers))
  pub timers_disabled : (t.start (timer_init t.fresh p.timers)).timers_enabled ≡ false

-- The module is given each packet that is captured after the start of the test, and the events of its
-- timers; the generator does all its steps.
pub record IsServed (t : Test) (p : Process) (r : Outcome × Process) : Type 0 where
  pub handled : r.0.handled ≡ all_packets t.channels t.polls
  pub events : Delivered (t.start (timer_init t.fresh p.timers)) (r.0.events, r.1.timers)
  pub messages : r.0.messages ≡ t.messages
  pub steps : r.0.steps ≡ t.steps

while_not_runs {ℓ} :
    {A : Type ℓ} (flag : Bool) (rounds : List A) → flag ≡ false → while_not flag rounds ≡ rounds
unfolding while_not
while_not_runs flag rounds e = rw e refl

begin_test-IsRunning : (i : ℕ) (t : Test) (p : Process) → IsRunning p → IsRunning (begin_test i t p)
unfolding begin_test reset_context
begin_test-IsRunning i t p e = record {
  end_traffic_generation = e.end_traffic_generation;
  end_module = e.end_module;
  end_event = e.end_event;
}

begin_test-started : (i : ℕ) (t : Test) (p : Process) → (begin_test i t p).started ≡ false
unfolding begin_test reset_context
begin_test-started i t p = refl

begin_test-timers :
    (i : ℕ) (t : Test) (p : Process)
    → (begin_test i t p).timers ≡ t.start (timer_init t.fresh p.timers)
unfolding begin_test reset_context
begin_test-timers i t p = refl

module _ (timersub : TimerSub) (traffic_gen : ℤ) (dump_controller : Bool) where
  run_test_module-delivers :
      (p r : Process) (t : Test)
      → IsGood t p
      → r.end_module ≡ false
      → r.started ≡ false
      → Returns
          (λ c. c.handled ≡ all_packets t.channels t.polls)
          (run_test_module timersub traffic_gen dump_controller r t)
  unfolding run_test_module set_started
  run_test_module-delivers p r t good on waits =
      rw (while_not_runs r.end_module t.polls_before on, while_not_runs r.end_module t.polls on)
        (Returns-bind
          (test_module_loop-waits t.channels good.by_pcap good.distinct t.polls_before _
            good.polls_before waits)
          λ early e.
            Returns-map
              (test_module_loop-delivers t.channels good.by_pcap good.distinct t.polls
                (record early { started = true }) good.polls refl)
              λ c d. d ∙ ap (λ l. l ++ all_packets t.channels t.polls) e)

  -- A test that begins with no flag set that ends a thread, with channels that capture with
  -- libpcap, and whose module has put its timers into a valid queue. The round of `main` returns:
  -- the module was given every packet that was captured after `main` set `started`, once, in order
  -- and with its channel, and none from before, since the round resets `started`, whatever it was;
  -- the messages of the switch; the timed events, in the order of their times; and the generator
  -- did all its steps.
  pub main_test-IsServed :
      (i : ℕ) (t : Test) (p : Process)
      → IsRunning p
      → IsGood t p
      → Returns (IsServed t p) (main_test timersub traffic_gen dump_controller i t p)
  unfolding main_test end_threads
  main_test-IsServed i t p running good =
      let on = begin_test-IsRunning i t p running in
      let r = begin_test i t p in
      Returns-bind (run_test_module-delivers p r t good on.end_module (begin_test-started i t p))
        λ c d.
          Returns-bind
            (subst
              (λ q.
                Returns (Delivered (t.start (timer_init t.fresh p.timers)))
                  (event_loop timersub (while_not r.end_event t.readings) q))
              (sym (begin_test-timers i t p))
              (event_loop_delivers timersub (while_not r.end_event t.readings)
                (t.start (timer_init t.fresh p.timers)) good.timers good.timers_disabled))
            λ e l. returns (record {
              handled = d;
              events = l;
              messages = refl;
              steps = while_not_runs r.end_traffic_generation t.steps on.end_traffic_generation;
            })
