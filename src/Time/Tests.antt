-- ===== src/Time/Tests.antt =====
-- The statements about utils.c at concrete times.
use oflops_turbo.Base.{◌≡◌, refl, arith}
use oflops_turbo.Base.Int.{pos, negsuc, ◌+ℤ◌, ◌-ℤ◌, ◌*ℤ◌}
use oflops_turbo.Time.{TimeVal, TimeSpec, million, billion, add_time, add_timespec, time_cmp}
use oflops_turbo.Time.Arith.{micros, nanos, InRange, add_time_exact}

abbrev early : TimeVal
early = record { tv_sec = pos 5; tv_usec = pos 900_000 }

abbrev late : TimeVal
late = record { tv_sec = pos 7; tv_usec = pos 100_000 }

abbrev start : TimeSpec
start = record { tv_sec = pos 5; tv_nsec = pos 999_999_999 }

carried : add_time early (pos 1) (pos 200_000) ≡ late
unfolding add_time ◌+ℤ◌ ◌-ℤ◌
carried = refl

add_time_exact_example :
    (InRange million (add_time early (pos 1) (pos 200_000)).tv_usec
      × (micros (add_time early (pos 1) (pos 200_000))
          ≡ micros early +ℤ (pos 1 *ℤ pos million +ℤ pos 200_000)))
    × (InRange billion (add_timespec start (pos 1) (pos 1)).tv_nsec
        × (nanos (add_timespec start (pos 1) (pos 1))
            ≡ nanos start +ℤ (pos 1 *ℤ pos billion +ℤ pos 1)))
add_time_exact_example =
    add_time_exact early start (pos 1) (pos 200_000) (pos 1) (omega arith) (omega arith)
      (omega arith) (omega arith)

-- 7.1 s after 5.9 s.
compared : time_cmp late early ≡ negsuc 0
unfolding time_cmp
compared = refl
