-- ===== src/Lifecycle.antt =====
-- oflops.c and test_module.c: the tests of a run, one after the other, and what stays of a test. A
-- test is given by what its module and the world do. The loops of its threads, each of which runs
-- until a flag is set, are those of ModuleRun, Timer and Generator, over the rounds until then.
-- The threads share nothing else here but the flags. Of the control channel, what a test sees is
-- the list of the messages of the switch, which it is given whatever the flags are. Logging and
-- the statistics at the end of a test are not modelled.
mod Tests
pub mod Later
pub mod First
use oflops_turbo.Base.{
  ℕ, zero, suc, ◌+◌, Bool, true, false, List, [], ◌∷◌, ◌++◌, Option, none, some, if◌then◌else◌, Run,
  ok, ◌>>=◌,
}
use oflops_turbo.Base.Int.{ℤ, eqb_ℤ}
use oflops_turbo.Time.{TimeVal, TimeSpec}
use oflops_turbo.EventQueue.{Slots, WcQueue, TimerSub}
use oflops_turbo.Timer.{TimerEvent, timer_init, event_loop}
use oflops_turbo.MsgBuf.{Bytes, MsgBuf}
use oflops_turbo.Msg.{Header}
use oflops_turbo.Generator.{Step}
use oflops_turbo.Setup.{pktgen}
use oflops_turbo.ModuleRun.{Watched, StaticEvent, Capture, PollResult, test_module_loop}

-- The fields of the context that the threads share, with the modules that are closed, the queue of
-- the timers, the static pointer of the capture, and the buffers of the channels.
pub record Process : Type 0 where
  pub curr_test : Option ℕ
  pub closed : List ℕ
  pub started : Bool
  pub end_traffic_generation : Bool
  pub end_module : Bool
  pub end_event : Bool
  pub should_continue : ℤ
  pub cancelled : Bool
  pub timers : WcQueue
  pub pe : StaticEvent
  pub outgoing : ℕ → MsgBuf

-- A test: its channels, what `start` adds to the timers, what the user-space traffic generator
-- does and `poll` and the clocks return, before and after the start, the messages of the switch,
-- and the argument with which the module ends the test, if it does.
pub record Test : Type 0 where
  pub channels : List Watched
  pub fresh : Slots
  pub start : WcQueue → WcQueue
  pub steps : List Step
  pub polls_before : List PollResult
  pub polls : List PollResult
  pub readings : List (TimeVal × TimeSpec)
  pub messages : List Header
  pub end_test : Option ℤ

-- What a test sees: the packets, the events and the messages that its module is given, and the
-- steps of its generator.
pub record Outcome : Type 0 where
  pub handled : List (ℕ × Bytes)
  pub events : List TimerEvent
  pub messages : List Header
  pub steps : List Step

-- `reset_context`
pub reset_context : Process → Process
reset_context p = record p {
  closed = p.closed ++ (elim p.curr_test [ none ↦ [] | some i ↦ i ∷ [] ]);
}

-- `oflops_end_test`; a traffic generator of the kernel is cancelled.
pub oflops_end_test : ℤ → Process → ℤ → Process
oflops_end_test traffic_gen p should_continue = record p {
  cancelled = if eqb_ℤ traffic_gen pktgen then true else p.cancelled;
  end_traffic_generation = true;
  should_continue = should_continue;
}

-- The rounds of a loop that runs until a flag is set.
pub while_not {ℓ} : {A : Type ℓ} → Bool → List A → List A
while_not flag rounds = if flag then [] else rounds

-- The start of a round of the loop of `main`, and `timer_init`.
pub begin_test : ℕ → Test → Process → Process
begin_test i t p =
    let q = reset_context p in
    record q { curr_test = some i; started = false; timers = t.start (timer_init t.fresh q.timers) }

-- `ctx->started = 1`, after `start` of the module.
pub set_started : Process → Process
set_started p = record p { started = true }

-- What the module does to end the test.
pub end_by : ℤ → Option ℤ → Process → Process
end_by traffic_gen none p = p
end_by traffic_gen (some z) p = oflops_end_test traffic_gen p z

-- The end of the round, with what the threads leave behind.
pub end_threads : Process → Capture → WcQueue → Process
end_threads p capture q = record p {
  end_event = true;
  end_module = true;
  timers = q;
  pe = capture.pe;
  outgoing = capture.outgoing;
}

module _ (timersub : TimerSub) (traffic_gen : ℤ) (dump_controller : Bool) where
  -- The thread `run_module`, which runs from before the start of the test and reads `ctx->started`.
  pub run_test_module : Process → Test → Run Capture
  run_test_module p t = do
    early ← test_module_loop t.channels (while_not p.end_module t.polls_before) (record {
      started = p.started;
      dump_controller = dump_controller;
      pe = p.pe;
      outgoing = p.outgoing;
      handled = [];
      dumped = [];
    })
    test_module_loop t.channels (while_not p.end_module t.polls)
        (record early { started = (set_started p).started })

  -- One round of the loop of `main`, for the test `i`.
  pub main_test : ℕ → Test → Process → Run (Outcome × Process)
  main_test i t p = do
    let r = begin_test i t p
    capture ← run_test_module r t
    (events, q) ← event_loop timersub (while_not r.end_event t.readings) r.timers
    ok (
      record {
        handled = capture.handled;
        events = events;
        messages = t.messages;
        steps = while_not r.end_traffic_generation t.steps;
      },
      end_threads (end_by traffic_gen t.end_test (set_started r)) capture q,
    )

  -- The loop of `main`, from test `i` on.
  pub main_loop : ℕ → List Test → Process → Run (List Outcome × Process)
  main_loop i [] p = ok ([], p)
  main_loop i (t ∷ ts) p = do
    (o, p') ← main_test i t p
    (os, p'') ← main_loop (i + 1) ts p'
    ok (o ∷ os, p'')
