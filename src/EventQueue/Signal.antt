-- ===== src/EventQueue/Signal.antt =====
-- The SIGALRM style of wc_event.c: running the first event, arming the interval timer, and the
-- signal handler. `timersub` is that of <sys/time.h>; `clock n` is what the n-th call of
-- `gettimeofday` returns, and `setitimer d` is whether `setitimer` takes the value `d` and returns 0.
-- A result is the time after which the timer rings, `none` where it is not armed; a value of 0 disarms
-- it. A call of an event's function is recorded as the event that was taken out; it adds no events.
use oflops_turbo.Base.{
  ◌==◌, ◌&&◌, ℕ, zero, suc, ◌+◌, Bool, true, false, Option, none, some, Run, ok, aborted, fault,
  out_of_fuel, ◌>>=◌, assert, ltb, if◌then◌else◌,
}
use oflops_turbo.Base.Int.{pos, ltb_ℤ, eqb_ℤ}
use oflops_turbo.Time.{TimeVal, timer_lt}
use oflops_turbo.EventQueue.{WcQueue, Taken, TimerSub, load, wc_queue_isempty, wc_queue_extract}

-- An event that was run, and whether it was reported as late.
pub record Ran : Type 0 where
  pub event : Taken
  pub late : Bool

-- What `setitimer` leaves in the timer.
pub rings_in : TimeVal → Option TimeVal
rings_in d = if eqb_ℤ d.tv_sec (pos 0) && eqb_ℤ d.tv_usec (pos 0) then none else some d

module _ (timersub : TimerSub) (setitimer : TimeVal → Bool) where
  -- `none` is the result -1. After the test for an empty queue the extraction hands back an event;
  -- the C code would go on with uninitialised pointers if it did not.
  pub wc_run_next_event : TimeVal → WcQueue → Run (Option Ran × WcQueue)
  wc_run_next_event now q = if wc_queue_isempty q then ok (none, q) else (do
    (t, q') ← wc_queue_extract q
    elim t [
      | none ↦ fault
      | some e ↦
          ok (some (record { event = e; late = ltb_ℤ (pos 0) (timersub now e.key).tv_sec }), q')
    ])

  -- The end of `wc_schedule_next_event`.
  pub arm : TimeVal → WcQueue → Run (Option TimeVal × WcQueue)
  arm diff q = assert (setitimer diff) (ok (rings_in diff, q))

  -- The loop of `wc_schedule_next_event`; `n` calls of `gettimeofday` were made before.
  pub schedule_loop : ℕ → (ℕ → TimeVal) → ℕ → WcQueue → Run (Option TimeVal × WcQueue)
  schedule_loop zero clock n q = out_of_fuel
  schedule_loop (suc k) clock n q =
      let look : Run (Option TimeVal × WcQueue) = do
        first ← load q.length q.array 1
        let overdue = wc_run_next_event (clock (n + 1)) q >>= λ r. schedule_loop k clock (n + 2) r.1
        if timer_lt first.key (clock n) then overdue else arm (timersub first.key (clock n)) q
      in if wc_queue_isempty q then ok (none, q) else look

  pub wc_schedule_next_event : (ℕ → TimeVal) → WcQueue → Run (Option TimeVal × WcQueue)
  wc_schedule_next_event clock q =
      assert q.timers_enabled (assert (ltb 0 q.size) (schedule_loop (q.size + 1) clock 0 q))

  pub wc_enable_timers : (ℕ → TimeVal) → WcQueue → Run (Option TimeVal × WcQueue)
  wc_enable_timers clock q =
      let enabled = record q { timers_enabled = true } in
      if wc_queue_isempty q then ok (none, enabled) else wc_schedule_next_event clock enabled

  pub wc_disable_timers : WcQueue → WcQueue
  wc_disable_timers q = record q { timers_enabled = false }

  -- `wc_event_handler`, on the queue that `WC_Queue` points to.
  pub wc_event_handler : (ℕ → TimeVal) → WcQueue → Run (Option TimeVal × WcQueue)
  wc_event_handler clock q = assert q.timers_enabled (do
    r ← wc_run_next_event (clock 0) (record q { timers_enabled = false })
    wc_enable_timers (λ n. clock (n + 1)) r.1)

  -- What a signal does to the timer once the queue `q` is left: nothing where it is empty; it aborts
  -- where the first event is overdue; otherwise the timer is set to the time until the first event, if
  -- `setitimer` takes it.
  abbrev pub rearmed : TimeVal → WcQueue → Run (Option TimeVal × WcQueue)
  rearmed now q =
      if q.size == 0
      then ok (none, record q { timers_enabled = true })
      else if timer_lt (q.array 1).key now
      then aborted
      else if setitimer (timersub (q.array 1).key now)
      then ok (rings_in (timersub (q.array 1).key now), record q { timers_enabled = true })
      else aborted
