-- ===== src/Timer/Loop.antt =====
-- The events that `event_loop` hands to the test module.
use mathlib.Core.List.{Pairwise, not-mem-nil, mem-append_left, mem-map, mem-cons_of_mem, mem-cons}
use mathlib.Core.List.Perm
use mathlib.Core.Logic.Or
use mathlib.Core.Logic.{∥∥₁_elim}
use oflops_turbo.Base.{
  zero, suc, ◌≤◌, ◌≡◌, refl, Bool-set, false, inl, inr, none, some, List, [], ◌∷◌, ◌++◌, map, Mem,
  Perm, arith, Bool-cases, ok, ◌>>=◌, Returns, returns, Returns-bind, Returns-value, ltb,
}
use oflops_turbo.Base.Int.{ℤ, pos, negsuc}
use oflops_turbo.Time.{TimeVal, TimeSpec, timer_lt}
use oflops_turbo.EventQueue.{Qelm, WcQueue, TimerSub}
use oflops_turbo.EventQueue.Order.{NotAfter, IsValid}
use oflops_turbo.EventQueue.Delta.{delta-empty, delta-overdue, delta-ahead}
use oflops_turbo.EventQueue.Take.{elements, wc_queue_extract_correct, wc_queue_extract-empty}
use oflops_turbo.Timer.{
  TimerEvent, timer_get_next_event, timer_run_next_event, Action, wait, run, act, event_round,
  event_loop,
}

-- What the test module is given of an element.
abbrev pub event_of : Qelm → TimerEvent
event_of e = record { timer_id = e.id; arg = e.event.arg; sched_time = e.key }

-- The first event is scheduled no later than the second.
abbrev pub NotLater : TimerEvent → TimerEvent → Type 0
NotLater s t = timer_lt t.sched_time s.sched_time ≡ false

NotLater-of_events :
    (e y : Qelm) {t x : TimerEvent} → t ≡ event_of e → event_of y ≡ x → NotAfter e y → NotLater t x
NotLater-of_events e y p r h = rw (p, ← r) h

-- The events of an action.
abbrev given : Action → List TimerEvent
given (wait ts) = []
given (run none) = []
given (run (some e)) = e ∷ []

-- What a round does to a valid queue: it hands out nothing and leaves the queue, or it hands out an
-- element that is due first and leaves the others.
record Round (q : WcQueue) (r : Action × WcQueue) : Type 0 where
  valid : IsValid r.1
  disabled : r.1.timers_enabled ≡ false
  all : Perm (given r.0 ++ map event_of (elements r.1)) (map event_of (elements q))
  first :
      (t : TimerEvent)
      → Mem t (given r.0)
      → (x : TimerEvent) → Mem x (map event_of (elements r.1))
      → NotLater t x

module _ (timersub : TimerSub) (now : TimeVal) (q : WcQueue) (v : IsValid q)
    (off : q.timers_enabled ≡ false) where
  timer_get_next_event-Returns : Returns (λ z. Unit {0}) (timer_get_next_event timersub now q)
  unfolding timer_get_next_event
  timer_get_next_event-Returns = elim (Bool-cases (ltb q.size 1)) [
    | inl empty ↦ rw (delta-empty timersub now q off (ground arith)) (returns tt)
    | inr left ↦
        let some_left : 1 ≤ q.size = ground arith in
        elim (Bool-cases (timer_lt (q.array 1).key now)) [
          | inl late ↦ rw (delta-overdue timersub now q off some_left v.room late) (returns tt)
          | inr ahead ↦ rw (delta-ahead timersub now q off some_left v.room ahead) (returns tt)
        ]
  ]

  -- The round that waits or finds no event.
  idle : (a : Action) → given a ≡ [] → Round q (a, q)
  idle a e = record {
    valid = v;
    disabled = off;
    all = rw e (Perm.refl _);
    first = λ t m. absurd (not-mem-nil (rw e at m));
  }

  run-Round : Returns (Round q) (timer_run_next_event q >>= λ r. ok (run r.0, r.1))
  unfolding timer_run_next_event
  run-Round = elim (Bool-cases (ltb q.size 1)) [
    | inl empty ↦ rw (wc_queue_extract-empty q (ground arith) off) (returns (idle (run none) refl))
    | inr left ↦
        let (e, done, first) = wc_queue_extract_correct q v (ground arith) off in
        let (r, ran, p) = Returns-value done in
        rw (ran, p.result)
          (returns (record {
            valid = p.valid;
            disabled = p.disabled;
            all = Perm.map event_of p.rest;
            first = λ t m x n. ∥∥₁_elim (mem-map.0 n) (Bool-set _ _) λ y.
                let known = (Perm.mem_iff p.rest).0 (mem-cons_of_mem _ y.1) in
                Or.elim (Bool-set _ _) (mem-cons.0 m)
                  (λ same. NotLater-of_events e y.0 same y.2 (first y.0 known))
                  (λ nowhere. absurd (not-mem-nil nowhere));
          }))
  ]

-- What `event_loop` returns from the queue `q`.
pub record Delivered (q : WcQueue) (r : List TimerEvent × WcQueue) : Type 0 where
  pub ordered : Pairwise NotLater r.0
  pub all : Perm (r.0 ++ map event_of (elements r.1)) (map event_of (elements q))
  pub valid : IsValid r.1

-- The rest of the loop after one round.
collect-Delivered :
    (q q' : WcQueue) (a : Action) (l : List TimerEvent × WcQueue)
    → Round q (a, q')
    → Delivered q' l
    → Delivered q (elim a [ wait _ ↦ l | run t ↦ elim t [ none ↦ l | some e ↦ (e ∷ l.0, l.1) ] ])
collect-Delivered q q' (wait ts) l s d = record {
  ordered = d.ordered;
  all = Perm.trans d.all s.all;
  valid = d.valid;
}
collect-Delivered q q' (run none) l s d = record {
  ordered = d.ordered;
  all = Perm.trans d.all s.all;
  valid = d.valid;
}
collect-Delivered q q' (run (some e)) l s d = record {
  ordered =
      Pairwise.cons
        (λ t m.
          s.first e (mem-cons.1 (Or.inl refl)) t ((Perm.mem_iff d.all).0 (mem-append_left _ m)))
        d.ordered;
  all = Perm.trans (Perm.cons e d.all) s.all;
  valid = d.valid;
}

module _ (timersub : TimerSub) where
  event_round-Round :
      (now : TimeVal) (ts : TimeSpec) (q : WcQueue)
      → IsValid q
      → q.timers_enabled ≡ false
      → Returns (Round q) (event_round timersub now ts q)
  unfolding event_round
  event_round-Round now ts q v off =
      Returns-bind (timer_get_next_event-Returns timersub now q v off) (λ z _. split z)
    where
      split : (z : ℤ) → Returns (Round q) (act ts q z)
      split (pos zero) = run-Round timersub now q v off
      split (pos (suc n)) = returns (idle timersub now q v off _ refl)
      split (negsuc n) = run-Round timersub now q v off

  -- Whatever the clocks return, `event_loop` on a valid queue (to which nothing is added meanwhile)
  -- hands out events in the order of their times, each event of the queue at most once: those
  -- handed out and those left in the queue are together the events of the queue at the start.
  pub event_loop_delivers :
      (readings : List (TimeVal × TimeSpec)) (q : WcQueue)
      → IsValid q
      → q.timers_enabled ≡ false
      → Returns (Delivered q) (event_loop timersub readings q)
  unfolding event_loop
  event_loop_delivers [] q v off =
      returns (record { ordered = Pairwise.nil; all = Perm.refl _; valid = v })
  event_loop_delivers ((now, ts) ∷ readings) q v off =
      Returns-bind (event_round-Round now ts q v off) λ r s.
        Returns-bind (event_loop_delivers readings r.1 s.valid s.disabled)
          λ l d. returns (collect-Delivered q r.1 r.0 l s d)
