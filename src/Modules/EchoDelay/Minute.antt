-- ===== src/Modules/EchoDelay/Minute.antt =====
-- The minute of a test with the echo module: from `start` through the rounds of `event_loop`.
use oflops_turbo.Base.{
  ℕ, suc, ◌+◌, ◌-◌, ◌*◌, ◌^◌, ◌≤◌, ◌<◌, ◌≡◌, refl, ap, true, false, List, [], ◌∷◌, arith, ◌==◌,
  if◌then◌else◌, ◌>>=◌, Returns, returns, Returns-bind,
}
use oflops_turbo.Base.Count.{count}
use oflops_turbo.Base.Int.{ℤ, pos, pos_part, neg_part, ◌+ℤ◌, ◌≤ℤ◌, int_laws}
use oflops_turbo.Time.{TimeVal, TimeSpec, million, add_time}
use oflops_turbo.Time.Arith.{micros, InRange, add_time_normal, micros-add_time}
use oflops_turbo.EventQueue.{Slots, WcQueue, TimerSub}
use oflops_turbo.EventQueue.Memory.{contents}
use oflops_turbo.EventQueue.Order.{IsValid}
use oflops_turbo.EventQueue.Take.{elements}
use oflops_turbo.EventQueue.Add.{new_element}
use oflops_turbo.Msg.{OpenFlow}
use oflops_turbo.Msg.Builders.{make_ofp_hello, ofp_init}
use oflops_turbo.Setup.{Context}
use oflops_turbo.Timer.Due.{IsTimerSub}
use oflops_turbo.Modules.{byestr, snmpget, oflops_schedule_timer_event}
use oflops_turbo.Modules.EchoDelay.{
  EchoRun, EchoTest, echo_request, max_entries, after_delay, start, echo_rounds,
}
use oflops_turbo.Modules.EchoDelay.Pace.{IsPaced, is_echo, is_bad_iff, IsGood, schedule-IsPaced}
use oflops_turbo.Modules.EchoDelay.Sending.{
  xids, up_to, after_delay_exact, IsSending, echo_round-IsSending,
}

-- The clocks do not go back, return normalised times, and stay before `limit`.
abbrev pub IsChronological : ℤ → ℤ → List (TimeVal × TimeSpec × TimeVal) → Type 0
IsChronological limit clock [] = clock +ℤ pos 1 ≤ℤ limit
IsChronological limit clock ((now, ts, later) ∷ readings) =
    (InRange million now.tv_usec × InRange million later.tv_usec)
    × (((clock ≤ℤ micros now) × (micros now ≤ℤ micros later))
        × IsChronological limit (micros later) readings)

-- What holds of the requests of a run that took less than a minute from its first clock reading.
pub record IsNumbered (of : OpenFlow) (d : ℕ) (r : EchoRun) : Type 0 where
  pub sent : ℕ
  pub ids : xids of.echo_request r.requests ≡ up_to sent
  pub next_id : r.state.trans_id ≡ suc sent
  pub paced : sent * d < 60 * million
  pub inside : r.state.trans_id < max_entries

product_grows : (n d : ℕ) → 100 < d → n * 101 ≤ n * d
product_grows n d h =
    let split : d ≡ 101 + (d - 101) = omega arith in omega (arith, ap (λ x. n * x) split)

module _ (of : OpenFlow) (timersub : TimerSub) (law : IsTimerSub timersub) (fresh : Slots)
    (ctx : Context) (d : ℕ) (long : 100 < d) (short : d < 2 ^ 31) where
  echo_rounds-IsNumbered :
      (t0 clock : ℤ) (readings : List (TimeVal × TimeSpec × TimeVal)) (r : EchoRun)
      → IsSending of t0 d clock r
      → IsChronological (t0 +ℤ pos (60 * million)) clock readings
      → Returns (IsNumbered of d) (echo_rounds of timersub fresh ctx readings r)
  unfolding echo_rounds
  echo_rounds-IsNumbered t0 clock [] r s h =
      let few : s.sent * d < 60 * million = omega (int_laws, s.in_time) in
      returns (record {
        sent = s.sent;
        ids = s.ids;
        next_id = s.next_id;
        paced = few;
        inside = omega (arith, product_grows s.sent d long, s.next_id);
      })
  echo_rounds-IsNumbered t0 clock ((now, ts, later) ∷ readings) r s h =
      Returns-bind
        (echo_round-IsSending of t0 d timersub law fresh ctx short clock now later ts r s h.0.0
          h.0.1 h.1.0.0 h.1.0.1)
        λ r' s'. echo_rounds-IsNumbered t0 (micros later) readings r' s' h.1.1

  module _ (t1 t2 t3 : TimeVal) (n1 : InRange million t1.tv_usec) (n2 : InRange million t2.tv_usec)
      (n3 : InRange million t3.tv_usec) (t12 : micros t1 ≤ℤ micros t2)
      (t23 : micros t2 ≤ℤ micros t3) where
    abbrev base : ℤ
    base = micros t1 +ℤ pos (0 * d + d)

    start_schedule :
        (q : WcQueue) (tv : TimeVal) (arg step : ℕ)
        → IsPaced base (micros t3) q
        → InRange million tv.tv_usec
        → micros tv ≤ℤ micros t3 +ℤ pos step
        → step < 2 ^ 31
        → (is_echo (new_element q 0 arg tv) ≡ true → base ≤ℤ micros tv)
        → (if arg == echo_request then 1 else 0) + count is_echo (elements q) ≤ 1
        → Returns (λ r. IsPaced base (micros t3) r.1) (oflops_schedule_timer_event fresh q tv arg)
    unfolding IsGood
    start_schedule q tv arg step p n near bound paced few =
        schedule-IsPaced fresh base (micros t3) q tv arg p
          ((is_bad_iff base (micros t3) (new_element q 0 arg tv)).1 (n, (omega int_laws, paced)))
          few

    start-IsSending :
        (s : EchoTest) (q : WcQueue)
        → s.trans_id ≡ 1
        → s.delay ≡ d
        → IsValid q
        → q.timers_enabled ≡ false
        → q.size ≡ 0
        → (of.hello == of.echo_request) ≡ false
        → Returns (IsSending of (micros t1) d (micros t3)) (start of fresh t1 t2 t3 s q)
    unfolding start xids up_to make_ofp_hello ofp_init contents
    start-IsSending s q first e v off empty hello =
        let first_at = after_delay_exact t1 s.delay n1 in
        let second_at = micros-add_time t2 (pos 1) (pos 0) in
        let third_at = micros-add_time t3 (pos 60) (pos 0) in
        let no_elements : elements q ≡ [] = rw empty refl in
        let fresh_q : IsPaced base (micros t3) q = record {
          valid = v;
          disabled = off;
          sound = rw no_elements refl;
          single = rw no_elements (omega arith);
        } in
        Returns-bind
          (start_schedule q (after_delay t1 s.delay) echo_request d fresh_q first_at.0
            (omega (int_laws, ap pos_part first_at.1, ap neg_part first_at.1, e)) short
            (λ _. omega (int_laws, ap pos_part first_at.1, ap neg_part first_at.1, e))
            (rw no_elements (omega arith)))
          λ r1 p1.
            Returns-bind
              (start_schedule r1.1 (add_time t2 (pos 1) (pos 0)) snmpget million p1
                (add_time_normal t2 (pos 1) (pos 0) n2 (omega arith, omega arith))
                (omega (int_laws, ap pos_part second_at, ap neg_part second_at)) (omega arith)
                (λ h. absurd (ground arith)) (omega (arith, p1.single)))
              λ r2 p2.
                Returns-bind
                  (start_schedule r2.1 (add_time t3 (pos 60) (pos 0)) byestr (60 * million) p2
                    (add_time_normal t3 (pos 60) (pos 0) n3 (omega arith, omega arith))
                    (omega (int_laws, ap pos_part third_at, ap neg_part third_at)) (omega arith)
                    (λ h. absurd (ground arith)) (omega (arith, p2.single)))
                  λ r3 p3. returns (record {
                    sent = 0;
                    ids = rw hello refl;
                    next_id = first;
                    kept_delay = e;
                    in_time = omega int_laws;
                    paced = p3;
                  })

    -- `start` of the echo module at the time `t1`, with a delay of more than 100 microseconds and less
    -- than 2^31 and an empty queue, and then rounds of `event_loop` for less than a minute, with clocks that
    -- do not go back. All calls return. The module has sent echo requests with the ids 1, 2, 3, and so
    -- on, in order and none twice, no more than fit the time at one per delay, and the next id is
    -- inside `echo_data`.
    pub start-IsNumbered :
        (s : EchoTest) (q : WcQueue) (readings : List (TimeVal × TimeSpec × TimeVal))
        → s.trans_id ≡ 1
        → s.delay ≡ d
        → IsValid q
        → q.timers_enabled ≡ false
        → q.size ≡ 0
        → (of.hello == of.echo_request) ≡ false
        → IsChronological (micros t1 +ℤ pos (60 * million)) (micros t3) readings
        → Returns
            (IsNumbered of d)
            (start of fresh t1 t2 t3 s q >>= λ r. echo_rounds of timersub fresh ctx readings r)
    start-IsNumbered s q readings first e v off empty hello h =
        Returns-bind (start-IsSending s q first e v off empty hello)
          λ r p. echo_rounds-IsNumbered (micros t1) (micros t3) readings r p h
