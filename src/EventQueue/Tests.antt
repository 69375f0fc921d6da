-- ===== src/EventQueue/Tests.antt =====
-- The statements about wc_event.c at concrete queues.
use oflops_turbo.Base.{ℕ, ◌+◌, ◌≡◌, ◌↔◌, refl, true, false, Mem, if◌then◌else◌, arith, ltb, Returns}
use oflops_turbo.Base.Int.{pos}
use oflops_turbo.Time.{TimeVal, timer_lt}
use oflops_turbo.EventQueue.{
  Qelm, Slots, WcQueue, verify_from, verify_heap, wc_event_add, wc_event_remove, wc_queue_extract,
}
use oflops_turbo.EventQueue.Order.{IsHeap, IsValid, NotAfter, verify_heap_iff}
use oflops_turbo.EventQueue.Add.{Added, new_element, wc_event_add_correct}
use oflops_turbo.EventQueue.Take.{elements, Removed, wc_queue_extract_correct}
use oflops_turbo.EventQueue.Fix.{RemovedById, wc_event_remove_correct}

abbrev pub at_time : ℕ → TimeVal
at_time n = record { tv_sec = pos n; tv_usec = pos 0 }

abbrev pub element : ℕ → ℕ → Qelm
element id n = record {
  id = id;
  key = at_time n;
  event = record { eventtime = at_time n; fun = 0; arg = 10 + id };
}

-- Three events, for the seconds 4, 9 and 6, in an array of length 4.
abbrev pub three_slots : Slots
three_slots i = if ltb i 2 then element 1 4 else if ltb i 3 then element 0 9 else element 2 6

abbrev pub three : WcQueue
three = record { array = three_slots; length = 4; size = 3; timers_enabled = false; event_id = 3 }

three_checks : verify_heap three ≡ true
unfolding verify_heap verify_from timer_lt
three_checks = refl

pub three-IsValid : IsValid three
three-IsValid = record { heap = (verify_heap_iff three).0 three_checks; room = omega arith }

verify_heap_iff_example : (verify_heap three ≡ true) ↔ IsHeap 3 three_slots
verify_heap_iff_example = verify_heap_iff three

-- The same queue with its first event out of place.
abbrev loose_slots : Slots
loose_slots i = if ltb i 2 then element 1 8 else if ltb i 3 then element 0 9 else element 2 6

abbrev loose : WcQueue
loose = record three { array = loose_slots }

-- The array is full, so it is doubled.
wc_event_add_correct_example :
    Returns
      (Added (elements three) (new_element three 7 8 (at_time 1)))
      (wc_event_add (λ i. element 0 0) three 7 8 (at_time 1))
wc_event_add_correct_example =
    wc_event_add_correct (λ i. element 0 0) three 7 8 (at_time 1) three-IsValid refl

wc_queue_extract_correct_example :
    (e : Qelm) × Returns (Removed three e) (wc_queue_extract three)
    × ((x : Qelm) → Mem x (elements three) → NotAfter e x)
wc_queue_extract_correct_example = wc_queue_extract_correct three three-IsValid (omega arith) refl

wc_event_remove_correct_example : Returns (RemovedById three 2) (wc_event_remove three 2)
wc_event_remove_correct_example = wc_event_remove_correct three three-IsValid refl 2

-- A signal at second 5 runs the event of second 4 and arms the timer for that of second 6.
abbrev ringing : WcQueue
ringing = record three { timers_enabled = true }
