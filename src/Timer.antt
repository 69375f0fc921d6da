-- ===== src/Timer.antt =====
-- timer_event.c, and `event_loop` of wc_event.c, which runs the timers of a test.
-- The queue is the context's `timers`. `timersub` is that of <sys/time.h>. A call of the test
-- module's `handle_timer_event` is recorded as the event that it is given.
pub mod Due
pub mod Loop
pub mod Tests
use oflops_turbo.Base.{
  ℕ, zero, suc, ◌+◌, ◌-◌, ◌*◌, ◌/◌, ◌%◌, ◌^◌, Bool, true, false, List, [], ◌∷◌, Option, none, some,
  ltb, leb, if◌then◌else◌, Run, ok, fault, ◌>>=◌,
}
use oflops_turbo.Base.Int.{ℤ, pos, negsuc, ◌+ℤ◌, ◌-ℤ◌, ◌*ℤ◌, ltb_ℤ, eqb_ℤ}
use oflops_turbo.Time.{TimeVal, TimeSpec, million, billion, to_uint32}
use oflops_turbo.EventQueue.{
  Slots, WcQueue, Taken, TimerSub, wc_queue_init, wc_queue_extract, wc_get_next_event_delta,
}

-- Conversion of a signed value to `int`.
abbrev pub to_int32 : ℤ → ℤ
to_int32 z =
    if ltb (to_uint32 z) (2 ^ 31) then pos (to_uint32 z) else negsuc (2 ^ 32 - 1 - to_uint32 z)

-- `struct timer_event`
pub record TimerEvent : Type 0 where
  pub timer_id : ℕ
  pub arg : ℕ
  pub sched_time : TimeVal

-- `timer_init`: the old queue is freed, and the counter of ids goes on.
pub timer_init : Slots → WcQueue → WcQueue
timer_init fresh q = wc_queue_init fresh 10 q.event_id

-- `timer_get_next_event`, which tests the result of `wc_get_next_event_delta`.
next_event : ℤ × Option TimeVal → Run ℤ
next_event (ret, tv) =
    if eqb_ℤ ret (pos 0)
    then elim tv [ some t ↦ ok (to_int32 (t.tv_sec *ℤ pos million +ℤ t.tv_usec)) | none ↦ fault ]
    else if eqb_ℤ ret (negsuc 0)
    then ok (pos million)
    else ok (negsuc 0)

pub timer_get_next_event : TimerSub → TimeVal → WcQueue → Run ℤ
unfolding next_event
timer_get_next_event timersub now q = wc_get_next_event_delta timersub now q >>= next_event

-- `timer_run_next_event`, with the event that the test module is given, if there is one.
pub timer_run_next_event : WcQueue → Run (Option TimerEvent × WcQueue)
timer_run_next_event q = do
  (t, q') ← wc_queue_extract q
  ok (elim t [
    | none ↦ (none, q')
    | some e ↦ (some (record { timer_id = e.id; arg = e.arg; sched_time = e.key }), q')
  ])

-- The time until which `event_loop` waits, `next` microseconds (but a second at most) after `ts`.
pub wait_until : TimeSpec → ℕ → TimeSpec
wait_until ts next =
    if ltb 0 (next / million)
    then record ts { tv_sec = ts.tv_sec +ℤ pos 1 }
    else (let sec = ts.tv_sec +ℤ pos (next / million) in
        let nsec = ts.tv_nsec +ℤ pos (next % million * 1000) in
        if ltb_ℤ nsec (pos billion)
        then record { tv_sec = sec; tv_nsec = nsec }
        else record { tv_sec = sec +ℤ pos 1; tv_nsec = nsec -ℤ pos billion })

-- What one round of `event_loop` does.
pub data Action : Type 0 where
  wait : TimeSpec → Action
  run : Option TimerEvent → Action

run_next : WcQueue → Run (Action × WcQueue)
run_next q = timer_run_next_event q >>= λ r. ok (run r.0, r.1)

-- What `event_loop` does once it has `next_event`.
act : TimeSpec → WcQueue → ℤ → Run (Action × WcQueue)
act ts q (pos zero) = run_next q
act ts q (pos (suc n)) = ok (wait (wait_until ts (suc n)), q)
act ts q (negsuc n) = run_next q

-- One round, where `gettimeofday` returns `now` and `clock_gettime` returns `ts`: it waits while
-- `next_event > 0`, and else runs the first event.
pub event_round : TimerSub → TimeVal → TimeSpec → WcQueue → Run (Action × WcQueue)
unfolding act run_next
event_round timersub now ts q = timer_get_next_event timersub now q >>= act ts q

-- `event_loop`, over the clock readings of its rounds until `end_event` is set: the events that the
-- test module is given, in order, and the queue at the end.
unfoldable pub event_loop :
    TimerSub → List (TimeVal × TimeSpec) → WcQueue → Run (List TimerEvent × WcQueue)
event_loop timersub [] q = ok ([], q)
event_loop timersub ((now, ts) ∷ readings) q = do
  (action, q') ← event_round timersub now ts q
  (rest, q'') ← event_loop timersub readings q'
  ok (elim action [
    | wait _ ↦ (rest, q'')
    | run t ↦ elim t [ none ↦ (rest, q'') | some e ↦ (e ∷ rest, q'') ]
  ])
