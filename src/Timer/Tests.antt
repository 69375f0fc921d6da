-- ===== src/Timer/Tests.antt =====
-- The statements about timer_event.c and `event_loop` at concrete queues and clocks.
use oflops_turbo.Base.{◌≡◌, refl, [], ◌∷◌, if◌then◌else◌, arith, Bool-cases, inl, inr, ok, Returns}
use oflops_turbo.Base.Int.{pos, ◌+ℤ◌, ◌-ℤ◌, ◌*ℤ◌, ltb_ℤ, int_laws}
use oflops_turbo.Time.{TimeSpec, million}
use oflops_turbo.EventQueue.{TimerSub}
use oflops_turbo.EventQueue.Tests.{at_time, three, three-IsValid}
use oflops_turbo.Timer.{wait_until, wait, event_round, event_loop}
use oflops_turbo.Timer.Due.{IsTimerSub, event_round_due}
use oflops_turbo.Timer.Loop.{Delivered, event_loop_delivers}

-- `timersub` as <sys/time.h> has it.
pub timersub : TimerSub
timersub a b =
    let sec = a.tv_sec -ℤ b.tv_sec in
    let usec = a.tv_usec -ℤ b.tv_usec in
    if ltb_ℤ usec (pos 0)
    then record { tv_sec = sec -ℤ pos 1; tv_usec = usec +ℤ pos million }
    else record { tv_sec = sec; tv_usec = usec }

pub timersub-IsTimerSub : IsTimerSub timersub
unfolding timersub
timersub-IsTimerSub = record {
  exact = λ a b h k. elim (Bool-cases (ltb_ℤ (a.tv_usec -ℤ b.tv_usec) (pos 0))) [
    | inl borrow ↦ rw borrow (omega int_laws)
    | inr plain ↦ rw plain (omega int_laws)
  ];
}

abbrev pub clock : TimeSpec
clock = record { tv_sec = pos 100; tv_nsec = pos 999_000_000 }

-- The first event of `three` is due at second 4.
event_round_due_example :
    event_round timersub (at_time 1) clock three ≡ ok (wait (wait_until clock 3_000_000), three)
unfolding ◌+ℤ◌ ◌*ℤ◌
event_round_due_example =
    event_round_due timersub timersub-IsTimerSub (at_time 1) three refl (omega arith) (omega arith)
      (omega arith) (omega arith) clock (pos 3_000_000) refl (omega arith)

event_loop_delivers_example :
    Returns (Delivered three) (
      event_loop timersub ((at_time 1, clock) ∷ (at_time 5, clock) ∷ (at_time 7, clock) ∷ []) three)
event_loop_delivers_example =
    event_loop_delivers timersub ((at_time 1, clock) ∷ (at_time 5, clock) ∷ (at_time 7, clock) ∷ [])
      three three-IsValid refl
