-- ===== src/Generator/Schedule.antt =====
-- The generator that is due first sends when it is due.
use oflops_turbo.Base.{
  ℕ, zero, suc, ◌+◌, ◌^◌, ◌≤◌, ◌<◌, ◌≡◌, refl, sym, ap, ◌∙◌, ◌⊎◌, inl, inr, Bool-cases, false, List,
  [], ◌∷◌, Option, none, some, arith, ◌==◌, ltb→lt, ltb-false→le, if◌then◌else◌, get_elem?, ok,
}
use oflops_turbo.Base.Int.{ℤ, pos, negsuc, ◌+ℤ◌, ◌-ℤ◌, ◌≤ℤ◌, ltb_ℤ, int_laws, pos_part, neg_part}
use oflops_turbo.Time.{TimeVal, TimeSpec, timespec_diff, time_diff, to_uint32}
use oflops_turbo.Time.Arith.{nanos, micros, timespec_diff_iff, time_diff_value}
use oflops_turbo.Timer.{to_int32}
use oflops_turbo.Generator.{
  ts_to_tv, min_loop, get_min_generator, Step, usleep, send_pkt, act_on, user_round,
}

-- No time of the list comes before `t`.
abbrev pub NoneBefore : TimeSpec → List TimeSpec → Type 0
NoneBefore t [] = Unit
NoneBefore t (x ∷ xs) = (nanos t ≤ℤ nanos x) × NoneBefore t xs

NoneBefore-weaken :
    (s t : TimeSpec) (xs : List TimeSpec) → nanos s ≤ℤ nanos t → NoneBefore t xs → NoneBefore s xs
NoneBefore-weaken s t [] h p = tt
NoneBefore-weaken s t (x ∷ xs) h p = (omega (arith, p.0), NoneBefore-weaken s t xs h p.1)

not_earlier : (x m : TimeSpec) → ltb_ℤ (pos 0) (timespec_diff x m) ≡ false → nanos m ≤ℤ nanos x
not_earlier x m later = elim (Bool-cases (ltb_ℤ (nanos x) (nanos m))) [
  | inl before ↦
      let less = ltb→lt _ _ before in
      let positive = (timespec_diff_iff x m).1 (omega (int_laws, less)) in absurd (ground arith)
  | inr fine ↦ ltb-false→le _ _ fine
]

-- What the loop finds: the least of the minimum so far and of the list, and where it is.
record Least (xs : List TimeSpec) (i g : ℕ) (m : TimeSpec) (r : ℕ) : Type 0 where
  time : TimeSpec
  none_before : NoneBefore time xs
  low : nanos time ≤ℤ nanos m
  place : ((r ≡ g) × (time ≡ m)) ⊎ ((j : ℕ) × (r ≡ i + j) × (get_elem? xs j ≡ some time))

min_loop-Least : (xs : List TimeSpec) (i g : ℕ) (m : TimeSpec) → Least xs i g m (min_loop xs i g m)
unfolding min_loop
min_loop-Least [] i g m = record {
  time = m;
  none_before = tt;
  low = omega arith;
  place = inl (refl, refl);
}
min_loop-Least (x ∷ xs) i g m = elim (Bool-cases (ltb_ℤ (pos 0) (timespec_diff x m))) [
  | inl earlier ↦
      let l = min_loop-Least xs (i + 1) i x in
      let below = (timespec_diff_iff x m).0 (ground arith) in
      rw earlier (record {
        time = l.time;
        none_before = (l.low, l.none_before);
        low = omega (int_laws, l.low);
        place = elim l.place [
          | inl here ↦ inr (0, here.0 ∙ omega arith, ap some (sym here.1))
          | inr there ↦ inr (suc there.0, there.1 ∙ omega arith, there.2)
        ];
      })
  | inr later ↦
      let l = min_loop-Least xs (i + 1) g m in
      let above = not_earlier x m later in
      rw later (record {
        time = l.time;
        none_before = (omega (arith, l.low), l.none_before);
        low = l.low;
        place = elim l.place [
          | inl here ↦ inl here
          | inr there ↦ inr (suc there.0, there.1 ∙ omega arith, there.2)
        ];
      })
]

-- `get_min_generator` returns a generator whose packet no other packet is due before.
pub get_min_generator_least :
    (t : TimeSpec) (ts : List TimeSpec)
    → (nr : ℕ) × (s : TimeSpec) × (get_min_generator (t ∷ ts) ≡ some nr)
      × (get_elem? (t ∷ ts) nr ≡ some s)
      × NoneBefore s (t ∷ ts)
unfolding get_min_generator
get_min_generator_least t ts =
    let l = min_loop-Least ts 1 0 t in (min_loop ts 1 0 t, l.time, refl, at, (l.low, l.none_before))
  where
    at : get_elem? (t ∷ ts) (min_loop ts 1 0 t) ≡ some (min_loop-Least ts 1 0 t).time
    at = elim (min_loop-Least ts 1 0 t).place [
      | inl here ↦ ap (get_elem? (t ∷ ts)) here.0 ∙ ap some (sym here.1)
      | inr there ↦
          let next : 1 + there.0 ≡ suc there.0 = omega arith in
          ap (get_elem? (t ∷ ts)) (there.1 ∙ next) ∙ there.2
    ]

as_int : (d : ℤ) → pos_part d < 2 ^ 31 → neg_part d ≤ 2 ^ 31 → to_int32 (pos (to_uint32 d)) ≡ d
as_int (pos n) h k = ground arith
as_int (negsuc n) h k = ground arith

round_of :
    (states : List TimeSpec) (now : TimeVal) (nr : ℕ) (s : TimeSpec)
    → get_min_generator states ≡ some nr
    → get_elem? states nr ≡ some s
    → user_round states now ≡ ok (act_on (to_int32 (pos (time_diff now (ts_to_tv s)))) nr)
unfolding user_round
round_of states now nr s least there = rw (user_round, least, there) refl

-- How many microseconds from now a packet is due.
abbrev pub due_in : TimeVal → TimeSpec → ℤ
due_in now s = micros (ts_to_tv s) -ℤ micros now

-- All packets are due at times whose distance from now fits 32 bits.
abbrev pub AllWithin : TimeVal → List TimeSpec → Type 0
AllWithin now [] = Unit
AllWithin now (x ∷ xs) =
    ((pos_part (due_in now x) < 2 ^ 31) × (neg_part (due_in now x) ≤ 2 ^ 31)) × AllWithin now xs

-- What holds of a time, if there is one.
abbrev FitsAt : TimeVal → Option TimeSpec → Type 0
FitsAt now none = Unit
FitsAt now (some s) = (pos_part (due_in now s) < 2 ^ 31) × (neg_part (due_in now s) ≤ 2 ^ 31)

AllWithin-at :
    (now : TimeVal) (xs : List TimeSpec) (i : ℕ) → AllWithin now xs → FitsAt now (get_elem? xs i)
AllWithin-at now [] i h = tt
AllWithin-at now (x ∷ xs) zero h = h.0
AllWithin-at now (x ∷ xs) (suc i) h = AllWithin-at now xs i h.1

-- What a round does for the generator `nr` whose packet is due in `d` microseconds.
abbrev pub sleep_or_send : ℤ → ℕ → Step
sleep_or_send (pos n) nr = if n == 0 then send_pkt nr else usleep n
sleep_or_send (negsuc n) nr = send_pkt nr

act_on-sleep_or_send : (d : ℤ) (nr : ℕ) → act_on d nr ≡ sleep_or_send d nr
unfolding act_on
act_on-sleep_or_send (pos zero) nr = refl
act_on-sleep_or_send (pos (suc n)) nr =
    let some_time : (suc n == 0) ≡ false = ground arith in rw some_time refl
act_on-sleep_or_send (negsuc n) nr = refl

-- Where the packets of all generators are due within 2^31 microseconds from now, a round of
-- `start_user_traffic_generator` chooses a generator whose packet no packet of another one is due
-- before. If this packet is still ahead, the round sleeps until it is due; if it is due or late,
-- the round sends it.
pub user_round_due :
    (t : TimeSpec) (ts : List TimeSpec) (now : TimeVal)
    → AllWithin now (t ∷ ts)
    → (nr : ℕ) × (s : TimeSpec) × (get_elem? (t ∷ ts) nr ≡ some s)
      × NoneBefore s (t ∷ ts)
      × (user_round (t ∷ ts) now ≡ ok (sleep_or_send (due_in now s) nr))
user_round_due t ts now within =
    let (nr, s, least, there, none_before) = get_min_generator_least t ts in
    let d = due_in now s in
    let ahead : micros (ts_to_tv s) ≡ micros now +ℤ d = omega int_laws in
    let fits = rw there at (AllWithin-at now (t ∷ ts) nr within) in
    (
      nr,
      s,
      there,
      none_before,
      round_of (t ∷ ts) now nr s least there
          ∙ ap (λ u. ok (act_on (to_int32 (pos u)) nr)) (time_diff_value now (ts_to_tv s) d ahead)
          ∙ ap (λ z. ok (act_on z nr)) (as_int d fits.0 fits.1)
          ∙ ap ok (act_on-sleep_or_send d nr),
    )
