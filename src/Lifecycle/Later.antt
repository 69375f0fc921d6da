-- ===== src/Lifecycle/Later.antt =====
-- The tests after the first one.
use oflops_turbo.Base.{
  ℕ, ◌+◌, ◌≡◌, refl, ap, ◌∙◌, Bool, true, List, [], ◌∷◌, map, Option, none, some, Run, ok, aborted,
  fault, out_of_fuel, ◌>>=◌, IfOk, IfOk-bind,
}
use oflops_turbo.Base.Int.{ℤ}
use oflops_turbo.EventQueue.{WcQueue, TimerSub}
use oflops_turbo.Timer.{event_loop}
use oflops_turbo.ModuleRun.{Capture, test_module_loop}
use oflops_turbo.Lifecycle.{
  Process, Test, Outcome, reset_context, begin_test, end_by, end_threads, oflops_end_test,
  while_not, set_started, run_test_module, main_test, main_loop,
}

-- A test that sees nothing but the messages of the switch.
abbrev pub unattended : Test → Outcome
unattended t = record { handled = []; events = []; messages = t.messages; steps = [] }

-- All flags that end a thread are set.
pub record HasEnded (p : Process) : Type 0 where
  pub end_traffic_generation : p.end_traffic_generation ≡ true
  pub end_module : p.end_module ≡ true
  pub end_event : p.end_event ≡ true

begin_test-HasEnded : (i : ℕ) (t : Test) (p : Process) → HasEnded p → HasEnded (begin_test i t p)
unfolding begin_test reset_context
begin_test-HasEnded i t p e = record {
  end_traffic_generation = e.end_traffic_generation;
  end_module = e.end_module;
  end_event = e.end_event;
}

end_by-HasEnded :
    (traffic_gen : ℤ) (z : Option ℤ) (p : Process)
    → p.end_traffic_generation ≡ true
    → (end_by traffic_gen z p).end_traffic_generation ≡ true
unfolding end_by oflops_end_test
end_by-HasEnded traffic_gen none p e = e
end_by-HasEnded traffic_gen (some z) p e = refl

end_by-some :
    (traffic_gen z : ℤ) (p : Process)
    → (end_by traffic_gen (some z) p).end_traffic_generation ≡ true
unfolding end_by oflops_end_test
end_by-some traffic_gen z p = refl

end_threads-HasEnded :
    (p : Process) (capture : Capture) (q : WcQueue)
    → p.end_traffic_generation ≡ true
    → HasEnded (end_threads p capture q)
unfolding end_threads
end_threads-HasEnded p capture q e = record {
  end_traffic_generation = e;
  end_module = refl;
  end_event = refl;
}

while_not_lem {ℓ} :
    {A : Type ℓ} (flag : Bool) (rounds : List A) → flag ≡ true → while_not flag rounds ≡ []
unfolding while_not
while_not_lem flag rounds e = rw e refl

module _ (timersub : TimerSub) (traffic_gen : ℤ) (dump_controller : Bool) where
  -- A run of the capture that ends at once.
  run_test_module-stopped :
      (p : Process) (t : Test)
      → p.end_module ≡ true
      → (c : Capture) × ((c.handled ≡ [])
          × (run_test_module timersub traffic_gen dump_controller p t ≡ ok c))
  unfolding run_test_module test_module_loop
  run_test_module-stopped p t e = (
    record {
      started = (set_started p).started;
      dump_controller = dump_controller;
      pe = p.pe;
      outgoing = p.outgoing;
      handled = [];
      dumped = [];
    },
    (
      refl,
      rw (while_not_lem p.end_module t.polls_before e, while_not_lem p.end_module t.polls e) refl,
    ),
  )

  -- A test on a context whose flags are set.
  main_test-HasEnded :
      (i : ℕ) (t : Test) (p : Process)
      → HasEnded p
      → (p' : Process) × (HasEnded p'
          × (main_test timersub traffic_gen dump_controller i t p ≡ ok (unattended t, p')))
  unfolding main_test event_loop set_started
  main_test-HasEnded i t p e =
      let b = begin_test-HasEnded i t p e in
      let c = run_test_module-stopped (begin_test i t p) t b.end_module in
      let r = begin_test i t p in
      let ended =
        end_threads-HasEnded (end_by traffic_gen t.end_test (set_started r)) c.0 r.timers
          (end_by-HasEnded traffic_gen t.end_test (set_started r) b.end_traffic_generation) in
      (
        end_threads (end_by traffic_gen t.end_test (set_started r)) c.0 r.timers,
        (
          ended,
          rw
              (
                c.1.1,
                while_not_lem r.end_event t.readings b.end_event,
                while_not_lem r.end_traffic_generation t.steps b.end_traffic_generation,
                c.1.0,
              )
              refl,
        ),
      )

  main_loop-HasEnded :
      (i : ℕ) (ts : List Test) (p : Process)
      → HasEnded p
      → (p' : Process) × (main_loop timersub traffic_gen dump_controller i ts p
          ≡ ok (map unattended ts, p'))
  unfolding main_loop
  main_loop-HasEnded i [] p e = (p, refl)
  main_loop-HasEnded i (t ∷ ts) p e =
      let first = main_test-HasEnded i t p e in
      let rest = main_loop-HasEnded (i + 1) ts first.0 first.1.0 in
      (rest.0, rw (first.1.1, rest.1) refl)

  main_test-ends :
      (i : ℕ) (t : Test) (p : Process) (z : ℤ)
      → t.end_test ≡ some z
      → IfOk {A = Outcome × Process}
          (λ r. HasEnded r.1)
          (main_test timersub traffic_gen dump_controller i t p)
  unfolding main_test
  main_test-ends i t p z ended =
      IfOk-bind _ (run_test_module timersub traffic_gen dump_controller (begin_test i t p) t) _ λ c.
        IfOk-bind _
          (event_loop timersub (while_not (begin_test i t p).end_event t.readings)
            (begin_test i t p).timers)
          _
          λ q.
            end_threads-HasEnded (end_by traffic_gen t.end_test (set_started (begin_test i t p))) c
              q.1
              (ap
                  (λ o.
                    (end_by traffic_gen o (set_started (begin_test i t p))).end_traffic_generation)
                  ended
                ∙ end_by-some traffic_gen z (set_started (begin_test i t p)))

  later_idle :
      (i : ℕ) (ts : List Test) (m : Run (Outcome × Process))
      → IfOk (λ r. HasEnded r.1) m
      → (◌>>=◌ {A = List Outcome × Process}
          (m >>= λ r.
            main_loop timersub traffic_gen dump_controller i ts r.1 >>= λ s. ok (r.0 ∷ s.0, s.1))
          (λ r. ok r.0))
        ≡ (m >>= λ r. ok (r.0 ∷ map unattended ts))
  later_idle i ts (ok r) e = rw (main_loop-HasEnded i ts r.1 e).1 refl
  later_idle i ts aborted e = refl
  later_idle i ts fault e = refl
  later_idle i ts out_of_fuel e = refl

  -- Once a test was ended by its module with `oflops_end_test`, the modules of all tests after it
  -- are given no captured packet and no timed event, and their user-space generators send nothing,
  -- whatever the world does; only the messages of the switch still come. The flags that end the
  -- threads are set at the end of a test and never reset.
  pub main_loop-later :
      (i : ℕ) (t : Test) (ts : List Test) (p : Process) (z : ℤ)
      → t.end_test ≡ some z
      → (main_loop timersub traffic_gen dump_controller i (t ∷ ts) p >>= λ r. ok r.0) ≡ (
          main_test timersub traffic_gen dump_controller i t p >>= λ r.
          ok (r.0 ∷ map unattended ts))
  unfolding main_loop
  main_loop-later i t ts p z ended =
      later_idle (i + 1) ts (main_test timersub traffic_gen dump_controller i t p)
        (main_test-ends i t p z ended)
