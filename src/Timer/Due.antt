-- ===== src/Timer/Due.antt =====
-- When `event_loop` runs the first event.
use oflops_turbo.Base.{
  ℕ, zero, suc, ◌-◌, ◌*◌, ◌/◌, ◌%◌, ◌^◌, ◌≤◌, ◌<◌, ◌≡◌, ap, true, false, inl, inr, arith, ltb, ◌==◌,
  if◌then◌else◌, Run, ok, Option, some, refl, ◌>>=◌, Bool-cases, ltb→lt, ltb-false→le,
}
use oflops_turbo.Base.Int.{
  ℤ, pos, negsuc, pos_part, neg_part, ◌+ℤ◌, ◌-ℤ◌, ◌≤ℤ◌, int_laws, ltb_ℤ, one_sided,
}
use oflops_turbo.Time.{TimeVal, TimeSpec, timer_lt, million, billion}
use oflops_turbo.Time.Arith.{micros, nanos, InRange, timer_lt_iff}
use oflops_turbo.EventQueue.{Qelm, WcQueue, TimerSub, Taken, taken, wc_queue_extract}
use oflops_turbo.EventQueue.Delta.{delta-empty, delta-overdue, delta-ahead}
use oflops_turbo.Timer.{
  to_int32, timer_get_next_event, wait_until, event_round, Action, wait, run, timer_run_next_event,
  next_event, act,
}

-- <sys/time.h>: `timersub` of two normalised times is their difference.
pub record IsTimerSub (timersub : TimerSub) : Type 0 where
  pub exact :
      (a b : TimeVal)
      → InRange million a.tv_usec
      → InRange million b.tv_usec
      → micros (timersub a b) ≡ micros a -ℤ micros b

-- From a normalised `ts`, the wait ends at a normalised time: `next` microseconds after `ts` where
-- that is less than a second, and exactly one second after it in all other cases.
pub wait_until_exact :
    (ts : TimeSpec) (next : ℕ)
    → InRange billion ts.tv_nsec
    → InRange billion (wait_until ts next).tv_nsec
      × (nanos (wait_until ts next)
          ≡ nanos ts +ℤ pos (if ltb next million then next * 1000 else billion))
unfolding wait_until
wait_until_exact ts next normal = elim (Bool-cases (ltb 0 (next / million))) [
  | inl long ↦ let far : ltb next million ≡ false = ground arith in rw (long, far) (omega int_laws)
  | inr short ↦
      let near : next / million ≡ 0 = ground arith in
      let rest : next % million ≡ next = ground arith in
      let less : ltb next million ≡ true = ground arith in
      rw (short, near, rest, less)
        (elim (Bool-cases (ltb_ℤ (ts.tv_nsec +ℤ pos (next * 1000)) (pos billion))) [
          | inl fits ↦
              let fits' = ltb→lt _ _ fits in
              rw fits (omega (int_laws, one_sided (ts.tv_nsec +ℤ pos (next * 1000))))
          | inr carry ↦
              let carry' = ltb-false→le _ _ carry in
              rw carry (
                omega (
                  int_laws,
                  one_sided (ts.tv_nsec +ℤ pos (next * 1000)),
                  one_sided (ts.tv_nsec +ℤ pos (next * 1000) -ℤ pos billion),
                ))
        ])
]

module _ (timersub : TimerSub) (law : IsTimerSub timersub) (now : TimeVal) (q : WcQueue)
    (off : q.timers_enabled ≡ false) (some_left : 1 ≤ q.size) (room : q.size < q.length)
    (normal : InRange million now.tv_usec)
    (key_normal : InRange million (q.array 1).key.tv_usec) where
  -- If the first event is `d` microseconds ahead, `timer_get_next_event` returns `d` as an `int`.
  next_event_ahead :
      (d : ℕ)
      → micros (q.array 1).key ≡ micros now +ℤ pos d
      → timer_get_next_event timersub now q ≡ ok (to_int32 (pos d))
  unfolding timer_get_next_event
  next_event_ahead d e = rw (delta-ahead timersub now q off some_left room ahead, distance)
    where
      ahead : timer_lt (q.array 1).key now ≡ false
      ahead = elim (Bool-cases (timer_lt (q.array 1).key now)) [
        | inl late ↦
            let late' = (timer_lt_iff (q.array 1).key now key_normal normal).0 late in
            absurd (omega (int_laws, ap pos_part e, ap neg_part e))
        | inr fine ↦ fine
      ]

      distance : micros (timersub (q.array 1).key now) ≡ pos d
      distance =
          let exact = law.exact (q.array 1).key now key_normal normal in
          omega (int_laws, ap pos_part e, ap neg_part e, ap pos_part exact, ap neg_part exact)

  -- If the first event is overdue, it returns -1.
  next_event_overdue :
      timer_lt (q.array 1).key now ≡ true → timer_get_next_event timersub now q ≡ ok (negsuc 0)
  unfolding timer_get_next_event
  next_event_overdue late = rw (delta-overdue timersub now q off some_left room late)

  -- The round that hands the first event to the test module.
  abbrev pub runs : Run (Action × WcQueue)
  runs = timer_run_next_event q >>= λ r. ok (run r.0, r.1)

  -- The first event is `d` microseconds ahead, less than 2^31. Where `d` is 0 or negative, the
  -- round runs it; else the round leaves the queue alone and waits as `wait_until` says.
  pub event_round_due :
      (ts : TimeSpec) (d : ℤ)
      → micros (q.array 1).key ≡ micros now +ℤ d
      → pos_part d < 2 ^ 31
      → event_round timersub now ts q ≡ elim d [
        | pos n ↦ if n == 0 then runs else ok (wait (wait_until ts n), q)
        | negsuc _ ↦ runs
      ]
  unfolding event_round
  event_round_due ts (pos zero) e small = rw (next_event_ahead 0 e)
  event_round_due ts (pos (suc d)) e small =
      let as_int : to_int32 (pos (suc d)) ≡ pos (suc d) = ground arith in
      let some_time : (suc d == 0) ≡ false = ground arith in
      rw (next_event_ahead (suc d) e, as_int, some_time)
  event_round_due ts (negsuc d) e small = rw (next_event_overdue late)
    where
      before : micros (q.array 1).key +ℤ pos 1 ≤ℤ micros now
      before = omega (int_laws, ap pos_part e, ap neg_part e)

      late : timer_lt (q.array 1).key now ≡ true
      late = (timer_lt_iff (q.array 1).key now key_normal normal).1 before

  -- An event that lies from 2^31 up to 2^32 - 1 microseconds ahead is not waited for: the distance
  -- is negative as an `int`, and the round runs the event at once.
  pub event_round_early :
      (ts : TimeSpec) (d : ℕ)
      → 2 ^ 31 ≤ d
      → d < 2 ^ 32
      → micros (q.array 1).key ≡ micros now +ℤ pos d
      → event_round timersub now ts q ≡ runs
  unfolding event_round
  event_round_early ts d far bound e =
      let as_int : to_int32 (pos d) ≡ negsuc (2 ^ 32 - 1 - d) = ground arith in
      rw (next_event_ahead d e, as_int)

abbrev pub run_first : WcQueue → Run (Action × WcQueue)
run_first q = timer_run_next_event q >>= λ r. ok (run r.0, r.1)

-- A round with an empty queue waits for a second.
pub event_round-empty :
    (timersub : TimerSub) (now : TimeVal) (ts : TimeSpec) (q : WcQueue)
    → q.timers_enabled ≡ false
    → q.size ≡ 0
    → event_round timersub now ts q ≡ ok (wait (wait_until ts million), q)
unfolding event_round timer_get_next_event next_event act
event_round-empty timersub now ts q off e = rw (delta-empty timersub now q off e)

-- The event that is run is made of the element that is taken out.
pub timer_run_next_event-extract :
    (q : WcQueue) (e : Qelm) (r : Option Taken × WcQueue)
    → wc_queue_extract q ≡ ok r
    → r.0 ≡ some (taken e)
    → run_first q
      ≡ ok (run (some (record { timer_id = e.id; arg = e.event.arg; sched_time = e.key })), r.1)
unfolding timer_run_next_event
timer_run_next_event-extract q e r done found = rw (done, found) refl
