-- ===== src/Modules/EchoDelay/Sending.antt =====
-- How many echo requests the module sends while a test runs, and with which ids.
use mathlib.Core.List.{append-nil}
use oflops_turbo.Base.{
  ℕ, zero, suc, ◌+◌, ◌*◌, ◌/◌, ◌%◌, ◌^◌, ◌≤◌, ◌<◌, ◌≡◌, refl, ap, ◌∙◌, inl, inr, Bool-cases, true,
  List, [], ◌∷◌, ◌++◌, some, none, arith, ◌==◌, if◌then◌else◌, ok, Returns, returns, Returns-bind,
}
use oflops_turbo.Base.Count.{count, count_cover}
use oflops_turbo.Base.Int.{ℤ, pos, pos_part, neg_part, ◌+ℤ◌, ◌≤ℤ◌, int_laws}
use oflops_turbo.Time.{TimeVal, TimeSpec, million, add_time}
use oflops_turbo.Time.Arith.{micros, InRange, add_time_normal, micros-add_time}
use oflops_turbo.EventQueue.{Qelm, Slots, WcQueue, TimerSub}
use oflops_turbo.EventQueue.Take.{elements}
use oflops_turbo.EventQueue.Add.{new_element}
use oflops_turbo.Msg.{OpenFlow}
use oflops_turbo.Setup.{Context, Channel}
use oflops_turbo.Timer.{Action, wait, run}
use oflops_turbo.Timer.Due.{IsTimerSub}
use oflops_turbo.Modules.{
  Request, send_header, send_flow_mod, snmp_get, end_test, byestr, snmpget,
  oflops_schedule_timer_event, echo_header, get_all, get_channels,
}
use oflops_turbo.Modules.EchoDelay.{
  EchoRun, echo_request, after_delay, handle_timer_event, echo_round,
}
use oflops_turbo.Modules.EchoDelay.Pace.{
  IsPaced, is_echo, is_bad, is_bad_iff, IsGood, schedule-IsPaced, IsPaced-later, Stepped, waits,
  takes, event_round-Stepped,
}

-- The ids of the echo requests, in the order in which they were sent.
unfoldable pub xids : ℕ → List Request → List ℕ
xids type [] = []
xids type (send_header h ∷ rs) =
    let rest = xids type rs in if h.type == type then h.xid ∷ rest else rest
xids type (send_flow_mod m ∷ rs) = xids type rs
xids type (snmp_get oid ∷ rs) = xids type rs
xids type (end_test z ∷ rs) = xids type rs

-- 1, 2, ..., n
unfoldable pub up_to : ℕ → List ℕ
up_to zero = []
up_to (suc n) = up_to n ++ (suc n ∷ [])

xids-append :
    (type : ℕ) (rs ss : List Request) → xids type (rs ++ ss) ≡ xids type rs ++ xids type ss
unfolding xids
xids-append type [] ss = refl
xids-append type (send_header h ∷ rs) ss = elim (Bool-cases (h.type == type)) [
  | inl e ↦ rw (e, xids-append type rs ss) refl
  | inr e ↦ rw (e, xids-append type rs ss) refl
]
xids-append type (send_flow_mod m ∷ rs) ss = xids-append type rs ss
xids-append type (snmp_get oid ∷ rs) ss = xids-append type rs ss
xids-append type (end_test z ∷ rs) ss = xids-append type rs ss

xids-get_all : (type : ℕ) (oids : List (List ℤ)) → xids type (get_all oids) ≡ []
unfolding xids get_all
xids-get_all type [] = refl
xids-get_all type (oid ∷ oids) = xids-get_all type oids

xids-get_channels :
    (type n i : ℕ) (channels : ℕ → Channel) → xids type (get_channels n i channels) ≡ []
unfolding xids get_channels
xids-get_channels type zero i channels = refl
xids-get_channels type (suc n) i channels = xids-get_channels type n (i + 1) channels

-- What the branch for SNMPGET asks.
abbrev asked : Context → List Request
asked ctx = get_all ctx.cpu_oids ++ get_channels ctx.n_channels 0 ctx.channels

xids-asked : (type : ℕ) (ctx : Context) → xids type (asked ctx) ≡ []
xids-asked type ctx =
    xids-append type (get_all ctx.cpu_oids) _
    ∙ rw (xids-get_all type ctx.cpu_oids) (xids-get_channels type ctx.n_channels 0 ctx.channels)

pub after_delay_exact :
    (t : TimeVal) (d : ℕ)
    → InRange million t.tv_usec
    → InRange million (after_delay t d).tv_usec × (micros (after_delay t d) ≡ micros t +ℤ pos d)
unfolding after_delay
after_delay_exact t d h = (
  add_time_normal t (pos (d / million)) (pos (d % million)) h (omega arith, omega arith),
  micros-add_time t (pos (d / million)) (pos (d % million))
      ∙ ap (λ z. micros t +ℤ z) (omega int_laws),
)

-- Once the echo request is taken out of the queue, no other one is left that could be early.
no_echo-IsPaced :
    (base base' clock : ℤ) (q : WcQueue)
    → IsPaced base clock q
    → count is_echo (elements q) ≡ 0
    → IsPaced base' clock q
no_echo-IsPaced base base' clock q p none_left = record {
  valid = p.valid;
  disabled = p.disabled;
  sound = omega (
    arith,
    count_cover (is_bad base' clock) (is_bad base clock) is_echo (elements q) (λ x b. ground arith),
    p.sound,
  );
  single = omega arith;
}

module _ (of : OpenFlow) (t0 : ℤ) (d : ℕ) where
  -- The module has sent `sent` requests, each at least `d` microseconds after the one before.
  pub record IsSending (clock : ℤ) (r : EchoRun) : Type 0 where
    pub sent : ℕ
    pub ids : xids of.echo_request r.requests ≡ up_to sent
    pub next_id : r.state.trans_id ≡ suc sent
    pub kept_delay : r.state.delay ≡ d
    pub in_time : t0 +ℤ pos (sent * d) ≤ℤ clock
    pub paced : IsPaced (t0 +ℤ pos (sent * d + d)) clock r.timers

  module _ (clock now : ℤ) (later : TimeVal) (r : EchoRun) (s : IsSending clock r) (q : WcQueue)
      (normal : InRange million later.tv_usec) (past : clock ≤ℤ now) (onward : now ≤ℤ micros later)
      (rest : IsPaced (t0 +ℤ pos (s.sent * d + d)) clock q) (short : d < 2 ^ 31) where
    -- The rest of the queue is in order at the later time.
    rest_later : IsPaced (t0 +ℤ pos (s.sent * d + d)) (micros later) q
    rest_later = IsPaced-later _ clock (micros later) q (omega int_laws) rest

    -- The branch for ECHO_REQUEST, once its event is due.
    probe_schedules :
        (fresh : Slots)
        → t0 +ℤ pos (s.sent * d + d) ≤ℤ now
        → count is_echo (elements q) ≡ 0
        → Returns
            (λ p. IsPaced (t0 +ℤ pos (suc s.sent * d + d)) (micros later) p.1)
            (oflops_schedule_timer_event fresh q (after_delay later r.state.delay) echo_request)
    unfolding IsGood
    probe_schedules fresh due none_left = rw s.kept_delay (
        let at = after_delay_exact later d normal in
        schedule-IsPaced fresh _ (micros later) q (after_delay later d) echo_request
          (no_echo-IsPaced _ _ (micros later) q rest_later none_left)
          ((is_bad_iff _ _ (new_element q 0 echo_request (after_delay later d))).1 (
            at.0,
            (
              omega (int_laws, ap pos_part at.1, ap neg_part at.1),
              λ e. omega (int_laws, ap pos_part at.1, ap neg_part at.1),
            ),
          ))
          (omega arith))

    -- The branch for SNMPGET.
    snmp_schedules :
        (fresh : Slots)
        → Returns
            (λ p. IsPaced (t0 +ℤ pos (s.sent * d + d)) (micros later) p.1)
            (oflops_schedule_timer_event fresh q (add_time later (pos 10) (pos 0)) snmpget)
    unfolding IsGood
    snmp_schedules fresh =
        let base = t0 +ℤ pos (s.sent * d + d) in
        let at = micros-add_time later (pos 10) (pos 0) in
        schedule-IsPaced fresh base (micros later) q (add_time later (pos 10) (pos 0)) snmpget
          rest_later
          ((is_bad_iff base (micros later)
              (new_element q 0 snmpget (add_time later (pos 10) (pos 0)))).1
            (
              add_time_normal later (pos 10) (pos 0) normal (omega arith, omega arith),
              (omega (int_laws, ap pos_part at, ap neg_part at), λ e. absurd (ground arith)),
            ))
          (omega (arith, rest.single))

    -- Requests that are not echo requests do not count.
    unseen :
        (rs : List Request)
        → xids of.echo_request rs ≡ []
        → xids of.echo_request (r.requests ++ rs) ≡ xids of.echo_request r.requests
    unseen rs e =
        xids-append of.echo_request r.requests rs
        ∙ rw e (append-nil (xids of.echo_request r.requests))

    -- Nothing was sent that counts.
    keep-IsSending :
        (requests : List Request) (q' : WcQueue)
        → xids of.echo_request requests ≡ xids of.echo_request r.requests
        → IsPaced (t0 +ℤ pos (s.sent * d + d)) (micros later) q'
        → IsSending (micros later) (record { requests = requests; state = r.state; timers = q' })
    keep-IsSending requests q' same p = record {
      sent = s.sent;
      ids = same ∙ s.ids;
      next_id = s.next_id;
      kept_delay = s.kept_delay;
      in_time = omega (int_laws, s.in_time);
      paced = p;
    }

    -- The next request was sent.
    probe-IsSending :
        (q' : WcQueue)
        → t0 +ℤ pos (s.sent * d + d) ≤ℤ now
        → IsPaced (t0 +ℤ pos (suc s.sent * d + d)) (micros later) q'
        → IsSending (micros later) (record {
          requests =
              r.requests ++ (send_header (echo_header of of.echo_request r.state.trans_id) ∷ []);
          state = record r.state { trans_id = r.state.trans_id + 1 };
          timers = q';
        })
    unfolding up_to xids echo_header
    probe-IsSending q' due p = record {
      sent = suc s.sent;
      ids =
          let same : (of.echo_request == of.echo_request) ≡ true = ground arith in
          xids-append of.echo_request r.requests _ ∙ rw (same, s.ids, s.next_id) refl;
      next_id = omega (arith, s.next_id);
      kept_delay = s.kept_delay;
      in_time = omega int_laws;
      paced = p;
    }

    -- `handle_timer_event` for an event that was taken out of the queue when it was due.
    handle_timer_event-IsSending :
        (fresh : Slots) (ctx : Context) (x : Qelm)
        → micros x.key ≤ℤ now
        → IsGood (t0 +ℤ pos (s.sent * d + d)) clock x
        → (if is_echo x then 1 else 0) + count is_echo (elements q) ≤ 1
        → Returns
            (IsSending (micros later))
            (handle_timer_event of fresh ctx later x.event.arg (record r { timers = q }))
    unfolding handle_timer_event IsGood xids
    handle_timer_event-IsSending fresh ctx x due good few =
        let now_due : is_echo x ≡ true → t0 +ℤ pos (s.sent * d + d) ≤ℤ now =
          λ echo. omega (int_laws, good.1.1 echo) in
        elim (Bool-cases (x.event.arg == byestr)) [
          | inl bye ↦
              rw bye (returns (keep-IsSending _ q (unseen (end_test (pos 1) ∷ []) refl) rest_later))
          | inr not_bye ↦ elim (Bool-cases (is_echo x)) [
            | inl echo ↦
                rw (not_bye, echo)
                  (Returns-bind (probe_schedules fresh (now_due echo) (ground arith))
                    λ p t. returns (probe-IsSending p.1 (now_due echo) t))
            | inr other ↦ elim (Bool-cases (x.event.arg == snmpget)) [
              | inl snmp ↦
                  rw (not_bye, other, snmp)
                    (Returns-bind (snmp_schedules fresh) λ p t. returns (
                      keep-IsSending _ p.1 (unseen (asked ctx) (xids-asked of.echo_request ctx)) t))
              | inr unknown ↦
                  rw (not_bye, other, unknown)
                    (returns (keep-IsSending r.requests q refl rest_later))
            ]
          ]
        ]

  -- A round of `event_loop` keeps this up.
  module _ (timersub : TimerSub) (law : IsTimerSub timersub) (fresh : Slots) (ctx : Context)
      (short : d < 2 ^ 31) where
    pub echo_round-IsSending :
        (clock : ℤ) (now later : TimeVal) (ts : TimeSpec) (r : EchoRun)
        → IsSending clock r
        → InRange million now.tv_usec
        → InRange million later.tv_usec
        → clock ≤ℤ micros now
        → micros now ≤ℤ micros later
        → Returns (IsSending (micros later)) (echo_round of timersub fresh ctx now ts later r)
    unfolding echo_round
    echo_round-IsSending clock now later ts r s n m past onward =
        Returns-bind (event_round-Stepped timersub law _ clock r.timers s.paced now n past ts)
          (λ o t. after t)
      where
        after :
            {o : Action × WcQueue}
            → Stepped (t0 +ℤ pos (s.sent * d + d)) clock (micros now) r.timers o
            → Returns (IsSending (micros later)) (elim o.0 [
              | wait until ↦ ok (record r { timers = o.1 })
              | run event ↦ elim event [
                | none ↦ ok (record r { timers = o.1 })
                | some e ↦ handle_timer_event of fresh ctx later e.arg (record r { timers = o.1 })
              ]
            ])
        after waits = returns (
            keep-IsSending clock (micros now) later r s r.timers m past onward s.paced short
              r.requests r.timers refl
              (IsPaced-later _ clock (micros later) r.timers (omega int_laws) s.paced))
        after (takes x same due good few rest) = rw same (
            handle_timer_event-IsSending clock (micros now) later r s _ m past onward rest short
              fresh ctx x due good few)
