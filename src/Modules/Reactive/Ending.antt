-- ===== src/Modules/Reactive/Ending.antt =====
-- When the module ends the test: with the first packet of the last flow, once.
use oflops_turbo.Base.{
  ℕ, zero, suc, ◌+◌, ◌≤◌, ◌<◌, ◌≡◌, refl, ap, sym, ◌∙◌, inl, inr, Bool, Bool-cases, true, false,
  ◌&&◌, ◌||◌, not, arith, ltb, leb, ◌==◌, if◌then◌else◌, Returns, returns, Returns-bind,
}
use oflops_turbo.Base.Count.{count, count-perm}
use oflops_turbo.Base.Int.{ℤ, pos, negsuc, pos_part, eqb_ℤ}
use oflops_turbo.Base.Memory.{update, update_lem}
use oflops_turbo.Time.{TimeVal, add_time}
use oflops_turbo.EventQueue.{Qelm, Slots, WcQueue}
use oflops_turbo.EventQueue.Order.{IsValid}
use oflops_turbo.EventQueue.Take.{elements}
use oflops_turbo.EventQueue.Add.{wc_event_add_correct}
use oflops_turbo.Modules.{byestr, oflops_schedule_timer_event, in_flows}
use oflops_turbo.Modules.Reactive.{Reactive, file_received}

-- The events that end the test.
abbrev pub is_bye : Qelm → Bool
is_bye e = e.event.arg == byestr

-- How many of the first `n` places hold true.
abbrev pub true_count : ℕ → (ℕ → Bool) → ℕ
true_count zero f = 0
true_count (suc n) f = (if f n then 1 else 0) + true_count n f

pub true_count_le : (n : ℕ) (f : ℕ → Bool) → true_count n f ≤ n
true_count_le zero f = omega arith
true_count_le (suc n) f = ground (arith, true_count_le n f)

-- A write beyond them does not matter; one to a place that holds false adds one, of which there was room.
true_count-above :
    (n : ℕ) (f : ℕ → Bool) (i : ℕ) → n ≤ i → true_count n (update f i true) ≡ true_count n f
true_count-above zero f i h = refl
true_count-above (suc n) f i h =
    ground (arith, update_lem f i true n, true_count-above n f i (omega arith))

true_count-update :
    (n : ℕ) (f : ℕ → Bool) (i : ℕ)
    → i < n
    → f i ≡ false
    → true_count n (update f i true) ≡ true_count n f + 1
true_count-update zero f i h e = absurd (omega arith)
true_count-update (suc n) f i h e = elim (Bool-cases (i == n)) [
  | inl last ↦
      let here : n ≡ i = ground arith in
      ground (arith, update_lem f i true n, true_count-above n f i (ground arith), ap f here)
  | inr before ↦ ground (arith, update_lem f i true n, true_count-update n f i (ground arith) e)
]

true_count_room : (n : ℕ) (f : ℕ → Bool) (i : ℕ) → i < n → f i ≡ false → true_count n f < n
true_count_room n f i h e =
    omega (arith, true_count-update n f i h e, true_count_le n (update f i true))

-- The number of flows that were received is right, and `byes` and, once all are there, one more event
-- are in the queue to end the test.
pub record IsCounted (byes : ℕ) (s : Reactive) (q : WcQueue) : Type 0 where
  pub valid : IsValid q
  pub disabled : q.timers_enabled ≡ false
  pub counted : s.ip_received_count ≡ true_count s.flows s.ip_received
  pub ending : count is_bye (elements q) ≡ byes + (if leb s.flows s.ip_received_count then 1 else 0)

-- What one packet of the flow `id` does.
pub record IsStep (byes : ℕ) (id : ℤ) (s s' : Reactive) (q' : WcQueue) : Type 0 where
  pub counted : IsCounted byes s' q'
  pub same_flows : s'.flows ≡ s.flows
  pub received : (i : ℕ) → i < s.flows → s'.ip_received i ≡ (s.ip_received i || eqb_ℤ id (pos i))

or_true : (b : Bool) → true ≡ (b || true)
or_true true = refl
or_true false = refl

pub or_false : (b : Bool) → b ≡ (b || false)
or_false true = refl
or_false false = refl

true_of_not : (b : Bool) → not b ≡ false → b ≡ true
true_of_not true e = refl
true_of_not false e = sym e

marked :
    (i j : ℕ) (s : Reactive)
    → update s.ip_received i true j ≡ (s.ip_received j || eqb_ℤ (pos i) (pos j))
marked i j s = elim (Bool-cases (i == j)) [
  | inl same ↦
      let same_ : (i + 0 == j + 0) ≡ true = ground arith in
      rw (update_lem s.ip_received i true j, same, same_) (or_true (s.ip_received j))
  | inr other ↦
      let other_ : (i + 0 == j + 0) ≡ false = ground arith in
      rw (update_lem s.ip_received i true j, other, other_) (or_false (s.ip_received j))
]

was_there :
    (id : ℤ) (i : ℕ) (s : Reactive)
    → i < s.flows
    → (in_flows id s.flows && not (s.ip_received (pos_part id))) ≡ false
    → s.ip_received i ≡ (s.ip_received i || eqb_ℤ id (pos i))
unfolding in_flows
was_there (negsuc n) i s h old =
    let other : (0 + 0 == i + suc n) ≡ false = ground arith in rw other (or_false (s.ip_received i))
was_there (pos n) i s h old = elim (Bool-cases (n == i)) [
  | inl same ↦
      let here : n ≡ i = ground arith in
      let inside : ltb n s.flows ≡ true = ground arith in
      let there : s.ip_received i ≡ true =
        sym (ap s.ip_received here) ∙ true_of_not (s.ip_received n) (sym (rw inside refl) ∙ old) in
      rw there refl
  | inr other ↦
      let other_ : (n + 0 == i + 0) ≡ false = ground arith in rw other_ (or_false (s.ip_received i))
]

module _ (byes : ℕ) (fresh : Slots) (ts now : TimeVal) where
  pub new_flow :
      (i : ℕ) (s : Reactive) (q : WcQueue)
      → IsCounted byes s q
      → i < s.flows
      → s.ip_received i ≡ false
      → Returns (λ r. IsStep byes (pos i) s r.0 r.1) (file_received fresh ts now (pos i) s q)
  unfolding file_received in_flows oflops_schedule_timer_event
  new_flow i s q c inside new =
      let inside_ : ltb i s.flows ≡ true = ground arith in
      let one_more = true_count-update s.flows s.ip_received i inside new in
      let room = true_count_room s.flows s.ip_received i inside new in
      let missing : leb s.flows s.ip_received_count ≡ false = ground (arith, c.counted) in
      let before : count is_bye (elements q) ≡ byes = c.ending ∙ rw missing (omega arith) in
      elim (Bool-cases (leb s.flows (s.ip_received_count + 1))) [
        | inl last ↦
            rw (inside_, new, last)
              (Returns-bind
                (wc_event_add_correct fresh q 0 byestr (add_time now (pos 1) (pos 0)) c.valid
                  c.disabled)
                λ r a. returns (record {
                  counted = record {
                    valid = a.valid;
                    disabled = a.disabled;
                    counted = omega (arith, one_more, c.counted);
                    ending = count-perm is_bye a.all ∙ rw last (omega (arith, before));
                  };
                  same_flows = refl;
                  received = λ j h. marked i j s;
                }))
        | inr more ↦
            rw (inside_, new, more)
              (returns (record {
                counted = record {
                  valid = c.valid;
                  disabled = c.disabled;
                  counted = omega (arith, one_more, c.counted);
                  ending = rw more (omega (arith, before));
                };
                same_flows = refl;
                received = λ j h. marked i j s;
              }))
      ]

  pub old_flow :
      (id : ℤ) (s : Reactive) (q : WcQueue)
      → IsCounted byes s q
      → (in_flows id s.flows && not (s.ip_received (pos_part id))) ≡ false
      → Returns (λ r. IsStep byes id s r.0 r.1) (file_received fresh ts now id s q)
  unfolding file_received
  old_flow id s q c old = rw old (
      returns (record { counted = c; same_flows = refl; received = λ i h. was_there id i s h old }))

  -- One packet, whatever its flow.
  pub file_received-IsStep :
      (id : ℤ) (s : Reactive) (q : WcQueue)
      → IsCounted byes s q
      → Returns (λ r. IsStep byes id s r.0 r.1) (file_received fresh ts now id s q)
  unfolding in_flows
  file_received-IsStep (negsuc n) s q c = old_flow (negsuc n) s q c refl
  file_received-IsStep (pos i) s q c = elim (Bool-cases (ltb i s.flows)) [
    | inl inside ↦ elim (Bool-cases (s.ip_received i)) [
      | inl there ↦ old_flow (pos i) s q c (rw (inside, there) refl)
      | inr new ↦ new_flow i s q c (ground arith) new
    ]
    | inr outside ↦ old_flow (pos i) s q c (rw outside refl)
  ]
