-- ===== src/Modules/EchoDelay/Pace.antt =====
-- How fast the module sends: what is in the queue of the timers while the test runs.
use oflops_turbo.Base.{
  ℕ, zero, suc, ◌+◌, ◌^◌, ◌≤◌, ◌<◌, ◌≡◌, ◌↔◌, refl, ap, ◌∙◌, inl, inr, Bool, Bool-cases, true,
  false, ◌&&◌, ◌||◌, not, ◌∷◌, Perm, some, arith, ltb, ◌==◌, if◌then◌else◌, ok, Returns, returns,
  Returns-value, Returns-map,
}
use oflops_turbo.Base.Count.{count, count-perm, count_cover}
use oflops_turbo.Base.Int.{
  ℤ, pos, negsuc, pos_part, neg_part, ◌+ℤ◌, ◌-ℤ◌, ◌≤ℤ◌, ltb_ℤ, int_laws, +ℤ_parts, eq_of_parts,
}
use oflops_turbo.Time.{TimeVal, TimeSpec, million}
use oflops_turbo.Time.Arith.{micros, InRange}
use oflops_turbo.EventQueue.{Qelm, Slots, WcQueue, TimerSub}
use oflops_turbo.EventQueue.Order.{IsValid}
use oflops_turbo.EventQueue.Take.{elements, wc_queue_extract-Removed}
use oflops_turbo.EventQueue.Add.{wc_event_add_correct, new_element}
use oflops_turbo.Timer.{TimerEvent, Action, wait, run, wait_until, event_round}
use oflops_turbo.Timer.Due.{
  IsTimerSub, event_round_due, event_round-empty, run_first, timer_run_next_event-extract,
}
use oflops_turbo.Modules.{oflops_schedule_timer_event}
use oflops_turbo.Modules.EchoDelay.{echo_request}

abbrev pub is_echo : Qelm → Bool
is_echo e = e.event.arg == echo_request

abbrev pub is_normal : TimeVal → Bool
is_normal t = ltb (neg_part t.tv_usec) 1 && ltb (pos_part t.tv_usec) million

-- An element that is not normalised, too far ahead of the clock for `event_loop`, or an echo request
-- before its time.
abbrev pub is_bad : ℤ → ℤ → Qelm → Bool
is_bad base clock e =
    not (is_normal e.key)
    || (not (ltb_ℤ (micros e.key) (clock +ℤ pos (2 ^ 31)))
        || (is_echo e && ltb_ℤ (micros e.key) base))

-- A queue that is in order, with at most one echo request, not before `base`.
pub record IsPaced (base clock : ℤ) (q : WcQueue) : Type 0 where
  pub valid : IsValid q
  pub disabled : q.timers_enabled ≡ false
  pub sound : count (is_bad base clock) (elements q) ≡ 0
  pub single : count is_echo (elements q) ≤ 1

-- What it says of an element that it is not bad.
unfoldable pub IsGood : ℤ → ℤ → Qelm → Type 0
IsGood base clock e =
    InRange million e.key.tv_usec
    × ((micros e.key +ℤ pos 1 ≤ℤ clock +ℤ pos (2 ^ 31)) × (is_echo e ≡ true → base ≤ℤ micros e.key))

pub is_bad_iff : (base clock : ℤ) (e : Qelm) → (is_bad base clock e ≡ false) ↔ IsGood base clock e
unfolding IsGood
is_bad_iff base clock e = ground (arith, +ℤ_parts (micros e.key) (pos 1))

is_bad_later :
    (base clock clock' : ℤ) (e : Qelm)
    → clock ≤ℤ clock'
    → is_bad base clock' e ≡ true
    → is_bad base clock e ≡ true
is_bad_later base clock clock' e h bad =
    ground (arith, +ℤ_parts clock (pos (2 ^ 31)), +ℤ_parts clock' (pos (2 ^ 31)))

-- Another event with a normalised time between the clock and 2^31 microseconds after it.
pub schedule-IsPaced :
    (fresh : Slots) (base clock : ℤ) (q : WcQueue) (tv : TimeVal) (arg : ℕ)
    → IsPaced base clock q
    → is_bad base clock (new_element q 0 arg tv) ≡ false
    → (if arg == echo_request then 1 else 0) + count is_echo (elements q) ≤ 1
    → Returns (λ r. IsPaced base clock r.1) (oflops_schedule_timer_event fresh q tv arg)
unfolding oflops_schedule_timer_event
schedule-IsPaced fresh base clock q tv arg p good few =
    Returns-map (wc_event_add_correct fresh q 0 arg tv p.valid p.disabled) λ r a. record {
      valid = a.valid;
      disabled = a.disabled;
      sound = count-perm (is_bad base clock) a.all ∙ rw (good, p.sound) refl;
      single = rw (count-perm is_echo a.all) few;
    }

-- The queue at a later time.
pub IsPaced-later :
    (base clock clock' : ℤ) (q : WcQueue)
    → clock ≤ℤ clock'
    → IsPaced base clock q
    → IsPaced base clock' q
IsPaced-later base clock clock' q h p = record {
  valid = p.valid;
  disabled = p.disabled;
  sound =
      let bad = is_bad base clock in
      omega (
        arith,
        count_cover (is_bad base clock') bad bad (elements q)
            (λ x b. rw (is_bad_later base clock clock' x h b) refl),
        p.sound,
      );
  single = p.single;
}

-- What a round at the time `now` does: nothing, or it takes out an event that is due.
pub data Stepped (base clock now : ℤ) (q : WcQueue) : Action × WcQueue → Type 0 where
  waits : {until : TimeSpec} → Stepped base clock now q (wait until, q)
  takes :
      {e : TimerEvent} {q' : WcQueue} (x : Qelm)
      → e.arg ≡ x.event.arg
      → micros x.key ≤ℤ now
      → IsGood base clock x
      → (if is_echo x then 1 else 0) + count is_echo (elements q') ≤ 1
      → IsPaced base clock q'
      → Stepped base clock now q (run (some e), q')

module _ (timersub : TimerSub) (law : IsTimerSub timersub) (base clock : ℤ) (q : WcQueue)
    (p : IsPaced base clock q) (now : TimeVal) (normal : InRange million now.tv_usec)
    (later : clock ≤ℤ micros now) where
  -- The head of the queue, and what `wc_queue_extract` leaves.
  head-IsGood :
      (q' : WcQueue) → Perm (q.array 1 ∷ elements q') (elements q) → IsGood base clock (q.array 1)
  head-IsGood q' same =
      (is_bad_iff base clock (q.array 1)).0
        (ground (arith, count-perm (is_bad base clock) same, p.sound))

  run-Stepped :
      1 ≤ q.size
      → micros (q.array 1).key ≤ℤ micros now
      → Returns (Stepped base clock (micros now) q) (run_first q)
  run-Stepped some_left due =
      let (r, ran, t) = Returns-value (wc_queue_extract-Removed q p.valid some_left p.disabled) in
      let bads = count-perm (is_bad base clock) t.rest in
      let echoes = count-perm is_echo t.rest in
      rw (timer_run_next_event-extract q (q.array 1) r ran t.result) (
        returns (
          takes (q.array 1) refl due (head-IsGood r.1 t.rest) (omega (arith, echoes, p.single))
            (record {
              valid = t.valid;
              disabled = t.disabled;
              sound = omega (arith, bads, p.sound);
              single = omega (arith, echoes, p.single);
            })))

  first-IsGood : 1 ≤ q.size → IsGood base clock (q.array 1)
  first-IsGood some_left =
      let (r, ran, t) = Returns-value (wc_queue_extract-Removed q p.valid some_left p.disabled) in
      head-IsGood r.1 t.rest

  -- What `event_round_due` says of the head of the queue.
  round_due :
      (ts : TimeSpec)
      → 1 ≤ q.size
      → (d : ℤ) → micros (q.array 1).key ≡ micros now +ℤ d
      → pos_part d < 2 ^ 31
      → event_round timersub now ts q ≡ elim d [
        | pos n ↦ if n == 0 then run_first q else ok (wait (wait_until ts n), q)
        | negsuc _ ↦ run_first q
      ]
  unfolding IsGood
  round_due ts some_left =
      event_round_due timersub law now q p.disabled some_left p.valid.room normal
        (first-IsGood some_left).0 ts

  round_at :
      (ts : TimeSpec)
      → 1 ≤ q.size
      → (d : ℤ) → micros (q.array 1).key ≡ micros now +ℤ d
      → Returns (Stepped base clock (micros now) q) (event_round timersub now ts q)
  unfolding IsGood
  round_at ts some_left (pos zero) e =
      rw (round_due ts some_left (pos 0) e (omega arith))
        (run-Stepped some_left (omega (int_laws, ap pos_part e, ap neg_part e)))
  round_at ts some_left (pos (suc d)) e =
      let good = first-IsGood some_left in
      let some_time : (suc d == 0) ≡ false = ground arith in
      rw
        (
          round_due ts some_left (pos (suc d)) e
              (omega (int_laws, ap pos_part e, ap neg_part e, good.1.0)),
          some_time,
        )
        (returns waits)
  round_at ts some_left (negsuc d) e =
      rw (round_due ts some_left (negsuc d) e (omega arith))
        (run-Stepped some_left (omega (int_laws, ap pos_part e, ap neg_part e)))

  pub event_round-Stepped :
      (ts : TimeSpec) → Returns (Stepped base clock (micros now) q) (event_round timersub now ts q)
  event_round-Stepped ts = elim (Bool-cases (ltb q.size 1)) [
    | inl empty ↦ rw (event_round-empty timersub now ts q p.disabled (ground arith)) (returns waits)
    | inr left ↦
        round_at ts (ground arith) (micros (q.array 1).key -ℤ micros now)
          (eq_of_parts _ _ (omega int_laws))
  ]
