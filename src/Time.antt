-- ===== src/Time.antt =====
-- utils.c and the `timercmp` macro that wc_event.c spells out: points in time and their order.
-- A `time_t`, `suseconds_t` or `long` is an integer; that it has 64 bits is not modelled, since a
-- time that leaves that range is out of reach of a clock.
pub mod Order
pub mod Arith
mod Tests
use oflops_turbo.Base.{ℕ, ◌+◌, ◌-◌, ◌*◌, ◌%◌, ◌^◌, Bool, true, false, if◌then◌else◌}
use oflops_turbo.Base.Int.{ℤ, pos, negsuc, pos_part, neg_part, ◌+ℤ◌, ◌-ℤ◌, ◌*ℤ◌, ltb_ℤ, eqb_ℤ}

-- `struct timeval`
pub record TimeVal : Type 0 where
  pub tv_sec : ℤ
  pub tv_usec : ℤ

-- `struct timespec`
pub record TimeSpec : Type 0 where
  pub tv_sec : ℤ
  pub tv_nsec : ℤ

-- `timercmp(a, b, <)`; `timercmp(a, b, >)` is `timer_lt b a`.
unfoldable pub timer_lt : TimeVal → TimeVal → Bool
timer_lt a b =
    if eqb_ℤ a.tv_sec b.tv_sec then ltb_ℤ a.tv_usec b.tv_usec else ltb_ℤ a.tv_sec b.tv_sec

-- `set_timeval(target, val)`: the new target.
pub set_timeval : TimeVal → TimeVal → TimeVal
set_timeval target val = record { tv_sec = val.tv_sec; tv_usec = val.tv_usec }

abbrev pub million : ℕ
million = 1_000_000

abbrev pub billion : ℕ
billion = 1_000_000_000

-- `a >= c` where `a` is signed and `c` a `const uint64_t`: the sign of `a` is lost first.
abbrev pub reaches : ℤ → ℕ → Bool
reaches (pos n) c = elim (ltb_ℤ (pos n) (pos c)) [ true ↦ false | false ↦ true ]
reaches (negsuc n) c = elim (ltb_ℤ (pos (2 ^ 64 - 1 - n)) (pos c)) [ true ↦ false | false ↦ true ]

-- `add_time(now, secs, usecs)`: the new `now`.
pub add_time : TimeVal → ℤ → ℤ → TimeVal
add_time now secs usecs =
    let sec = now.tv_sec +ℤ secs in
    let usec = now.tv_usec +ℤ usecs in
    if reaches usec million
    then record { tv_sec = sec +ℤ pos 1; tv_usec = usec -ℤ pos million }
    else record { tv_sec = sec; tv_usec = usec }

-- `add_timespec(now, secs, nsecs)`: the new `now`.
pub add_timespec : TimeSpec → ℤ → ℤ → TimeSpec
add_timespec now secs nsecs =
    let sec = now.tv_sec +ℤ secs in
    let nsec = now.tv_nsec +ℤ nsecs in
    if reaches nsec billion
    then record { tv_sec = sec +ℤ pos 1; tv_nsec = nsec -ℤ pos billion }
    else record { tv_sec = sec; tv_nsec = nsec }

-- Conversion of a signed value to `uint32_t`.
abbrev pub to_uint32 : ℤ → ℕ
to_uint32 (pos n) = n % 2 ^ 32
to_uint32 (negsuc n) = 2 ^ 32 - 1 - n % 2 ^ 32

-- `time_diff(now, then)`
pub time_diff : TimeVal → TimeVal → ℕ
time_diff now then_ =
    to_uint32 ((then_.tv_sec -ℤ now.tv_sec) *ℤ pos million +ℤ (then_.tv_usec -ℤ now.tv_usec))

-- `timespec_diff(now, then)`
pub timespec_diff : TimeSpec → TimeSpec → ℤ
timespec_diff now then_ =
    (then_.tv_sec -ℤ now.tv_sec) *ℤ pos billion +ℤ (then_.tv_nsec -ℤ now.tv_nsec)

-- `time_cmp(now, then)`
pub time_cmp : TimeVal → TimeVal → ℤ
time_cmp now then_ =
    if eqb_ℤ then_.tv_sec now.tv_sec
    then if eqb_ℤ then_.tv_usec now.tv_usec
      then pos 0
      else if ltb_ℤ then_.tv_usec now.tv_usec
      then negsuc 0
      else pos 1
    else if ltb_ℤ then_.tv_sec now.tv_sec
    then negsuc 0
    else pos 1
