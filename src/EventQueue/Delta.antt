-- ===== src/EventQueue/Delta.antt =====
-- `wc_get_next_event_delta`: whether there is a first event, and how far ahead it is.
use oflops_turbo.Base.{◌≤◌, ◌<◌, ◌≡◌, not, true, false, none, some, arith, ltb, ok}
use oflops_turbo.Base.Int.{pos, negsuc}
use oflops_turbo.Time.{TimeVal, timer_lt}
use oflops_turbo.EventQueue.{WcQueue, TimerSub, wc_queue_isempty, wc_get_next_event_delta}
use oflops_turbo.EventQueue.Order.{load-ok}

module _ (timersub : TimerSub) (now : TimeVal) (q : WcQueue) (off : q.timers_enabled ≡ false) where
  enabled : not q.timers_enabled ≡ true
  enabled = ground arith

  pub delta-empty : q.size ≡ 0 → wc_get_next_event_delta timersub now q ≡ ok (negsuc 0, none)
  unfolding wc_get_next_event_delta wc_queue_isempty
  delta-empty e = let empty : ltb q.size 1 ≡ true = ground arith in rw (enabled, empty)

  module _ (some_left : 1 ≤ q.size) (room : q.size < q.length) where
    nonempty : ltb q.size 1 ≡ false
    nonempty = ground arith

    pub delta-overdue :
        timer_lt (q.array 1).key now ≡ true
        → wc_get_next_event_delta timersub now q ≡ ok (pos 1, none)
    unfolding wc_get_next_event_delta wc_queue_isempty
    delta-overdue late = rw (enabled, nonempty, load-ok q.length q.array 1 (omega arith), late)

    pub delta-ahead :
        timer_lt (q.array 1).key now ≡ false
        → wc_get_next_event_delta timersub now q ≡ ok (pos 0, some (timersub (q.array 1).key now))
    unfolding wc_get_next_event_delta wc_queue_isempty
    delta-ahead ahead = rw (enabled, nonempty, load-ok q.length q.array 1 (omega arith), ahead)
