-- ===== src/Time/Order.antt =====
-- `timercmp` and `time_cmp` are one strict weak order on times, and a total one.
use oflops_turbo.Base.{◌≡◌, true, false, arith, if◌then◌else◌}
use oflops_turbo.Base.Int.{pos, negsuc, eq_of_parts}
use oflops_turbo.Time.{TimeVal, timer_lt, time_cmp}

-- No time is before itself.
pub timer_lt_irrefl : (a : TimeVal) → timer_lt a a ≡ false
unfolding timer_lt
timer_lt_irrefl a = ground arith

pub timer_lt_asymm : (a b : TimeVal) → timer_lt a b ≡ true → timer_lt b a ≡ false
unfolding timer_lt
timer_lt_asymm a b h = ground arith

-- "not later than" is transitive.
pub timer_le_trans :
    (a b c : TimeVal) → timer_lt b a ≡ false → timer_lt c b ≡ false → timer_lt c a ≡ false
unfolding timer_lt
timer_le_trans a b c h k = ground arith

-- Times that come neither before nor after one another are equal.
pub timer_le_antisymm : (a b : TimeVal) → timer_lt a b ≡ false → timer_lt b a ≡ false → a ≡ b
unfolding timer_lt
timer_le_antisymm a b h k =
    ground (arith, eq_of_parts a.tv_sec b.tv_sec, eq_of_parts a.tv_usec b.tv_usec)

-- `time_cmp(now, then)` is -1 where `then` comes before `now` in the order of `timercmp`, 1 where it
-- comes after `now`, and 0 in all other cases.
pub time_cmp_lem :
    (now then_ : TimeVal)
    → time_cmp now then_
      ≡ (if timer_lt then_ now then negsuc 0 else if timer_lt now then_ then pos 1 else pos 0)
unfolding timer_lt time_cmp
time_cmp_lem now then_ = ground arith

-- What comes before a time comes before all that are not earlier.
pub timer_lt_of_lt_of_le :
    (a b c : TimeVal) → timer_lt a b ≡ true → timer_lt c b ≡ false → timer_lt a c ≡ true
unfolding timer_lt
timer_lt_of_lt_of_le a b c h k = ground arith
