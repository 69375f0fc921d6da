-- ===== src/Time/Arith.antt =====
-- What the arithmetic of utils.c computes, in whole units.
use oflops_turbo.Base.{ℕ, ◌^◌, ◌<◌, ◌≡◌, ◌↔◌, true, inl, inr, ap, arith, Bool-cases}
use oflops_turbo.Base.Int.{
  ℤ, pos, pos_part, neg_part, ◌+ℤ◌, ◌-ℤ◌, ◌*ℤ◌, ◌≤ℤ◌, int_laws, +ℤ_parts, *ℤ_parts,
}
use oflops_turbo.Time.{
  TimeVal, TimeSpec, million, billion, reaches, timer_lt, add_time, add_timespec, time_diff,
  timespec_diff, to_uint32,
}

-- The microseconds since the epoch.
abbrev pub micros : TimeVal → ℤ
micros t = t.tv_sec *ℤ pos million +ℤ t.tv_usec

-- The nanoseconds since the epoch.
abbrev pub nanos : TimeSpec → ℤ
nanos t = t.tv_sec *ℤ pos billion +ℤ t.tv_nsec

abbrev pub InRange : ℕ → ℤ → Type 0
InRange limit x = (pos 0 ≤ℤ x) × (pos_part x < limit)

pub add_time_normal :
    (now : TimeVal) (secs usecs : ℤ)
    → InRange million now.tv_usec
    → InRange million usecs
    → InRange million (add_time now secs usecs).tv_usec
unfolding add_time ◌+ℤ◌ ◌-ℤ◌
add_time_normal now secs usecs h k = ground arith

pub micros-add_time :
    (now : TimeVal) (secs usecs : ℤ)
    → micros (add_time now secs usecs) ≡ micros now +ℤ (secs *ℤ pos million +ℤ usecs)
unfolding add_time
micros-add_time now secs usecs = elim (Bool-cases (reaches (now.tv_usec +ℤ usecs) million)) [
  | inl carry ↦ rw carry (omega int_laws)
  | inr stays ↦ rw stays (omega int_laws)
]

pub add_timespec_normal :
    (now : TimeSpec) (secs nsecs : ℤ)
    → InRange billion now.tv_nsec
    → InRange billion nsecs
    → InRange billion (add_timespec now secs nsecs).tv_nsec
unfolding add_timespec ◌+ℤ◌ ◌-ℤ◌
add_timespec_normal now secs nsecs h k = ground arith

pub nanos-add_timespec :
    (now : TimeSpec) (secs nsecs : ℤ)
    → nanos (add_timespec now secs nsecs) ≡ nanos now +ℤ (secs *ℤ pos billion +ℤ nsecs)
unfolding add_timespec
nanos-add_timespec now secs nsecs = elim (Bool-cases (reaches (now.tv_nsec +ℤ nsecs) billion)) [
  | inl carry ↦ rw carry (omega int_laws)
  | inr stays ↦ rw stays (omega int_laws)
]

-- From a normalised time and a normalised step, `add_time` returns the normalised time that many
-- microseconds later, and `add_timespec` the same in nanoseconds.
pub add_time_exact :
    (now : TimeVal) (at : TimeSpec) (secs usecs nsecs : ℤ)
    → InRange million now.tv_usec
    → InRange million usecs
    → InRange billion at.tv_nsec
    → InRange billion nsecs
    → (InRange million (add_time now secs usecs).tv_usec
        × (micros (add_time now secs usecs) ≡ micros now +ℤ (secs *ℤ pos million +ℤ usecs)))
      × (InRange billion (add_timespec at secs nsecs).tv_nsec
          × (nanos (add_timespec at secs nsecs) ≡ nanos at +ℤ (secs *ℤ pos billion +ℤ nsecs)))
add_time_exact now at secs usecs nsecs h k l m = (
  (add_time_normal now secs usecs h k, micros-add_time now secs usecs),
  (add_timespec_normal at secs nsecs l m, nanos-add_timespec at secs nsecs),
)

-- The order of `timercmp` on normalised times is the order of their microseconds.
pub timer_lt_iff :
    (a b : TimeVal)
    → InRange million a.tv_usec
    → InRange million b.tv_usec
    → (timer_lt a b ≡ true) ↔ (micros a +ℤ pos 1 ≤ℤ micros b)
unfolding timer_lt
timer_lt_iff a b h k = ground (
  arith,
  +ℤ_parts (a.tv_sec *ℤ pos million) a.tv_usec,
  +ℤ_parts (b.tv_sec *ℤ pos million) b.tv_usec,
  +ℤ_parts (micros a) (pos 1),
  *ℤ_parts a.tv_sec (pos million),
  *ℤ_parts b.tv_sec (pos million),
)

-- On normalised times `timespec_diff(now, then)` is positive exactly if `then` is the later time.
pub timespec_diff_iff :
    (now then_ : TimeSpec)
    → (pos 1 ≤ℤ timespec_diff now then_) ↔ (nanos now +ℤ pos 1 ≤ℤ nanos then_)
unfolding timespec_diff
timespec_diff_iff now then_ = ((λ h. omega int_laws), (λ h. omega int_laws))

-- Where the later time lies less than 2^32 microseconds after `now`, `time_diff` is the distance.
pub time_diff_exact :
    (now then_ : TimeVal) (d : ℕ)
    → micros then_ ≡ micros now +ℤ pos d
    → d < 2 ^ 32
    → time_diff now then_ ≡ d
unfolding time_diff
time_diff_exact now then_ d e h = rw distance (omega arith)
  where
    distance : (then_.tv_sec -ℤ now.tv_sec) *ℤ pos million +ℤ (then_.tv_usec -ℤ now.tv_usec) ≡ pos d
    distance = omega (int_laws, ap pos_part e, ap neg_part e)

-- `time_diff` is the distance in microseconds, converted to `uint32_t`.
pub time_diff_value :
    (now then_ : TimeVal) (d : ℤ)
    → micros then_ ≡ micros now +ℤ d
    → time_diff now then_ ≡ to_uint32 d
unfolding time_diff
time_diff_value now then_ d e = ap to_uint32 distance
  where
    distance : (then_.tv_sec -ℤ now.tv_sec) *ℤ pos million +ℤ (then_.tv_usec -ℤ now.tv_usec) ≡ d
    distance = omega (int_laws, ap pos_part e, ap neg_part e)
