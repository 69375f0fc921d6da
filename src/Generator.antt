-- ===== src/Generator.antt =====
-- traffic_generator.c: which user-space generator sends next, and when. The generators are given here by
-- the times of their next packets, `generator_state[i]->timestamp`; Generator/Packets has the rest of
-- them. The generators of the kernel and of the NetFPGA card are not modelled.
pub mod Schedule
pub mod Checksum
pub mod Packets
pub mod Extract
pub mod Tests
use oflops_turbo.Base.{
  ℕ, zero, suc, ◌+◌, ◌*◌, ◌/◌, ◌%◌, ◌^◌, ◌-◌, Bool, true, false, List, [], ◌∷◌, Option, none, some,
  ltb, leb, if◌then◌else◌, get_elem?, Run, ok, fault,
}
use oflops_turbo.Base.Int.{ℤ, pos, negsuc, sub_ℕ, ◌*ℤ◌, ltb_ℤ}
use oflops_turbo.Time.{TimeVal, TimeSpec, timespec_diff, time_diff}
use oflops_turbo.Timer.{to_int32}

-- A signed division by a positive number.
pub quotient : ℤ → ℕ → ℤ
quotient (pos n) d = pos (n / d)
quotient (negsuc n) d = sub_ℕ 0 (suc n / d)

pub ts_to_tv : TimeSpec → TimeVal
ts_to_tv ts = record { tv_sec = ts.tv_sec; tv_usec = quotient ts.tv_nsec 1000 }

pub tv_to_ts : TimeVal → TimeSpec
tv_to_ts tv = record { tv_sec = tv.tv_sec; tv_nsec = tv.tv_usec *ℤ pos 1000 }

-- The loop of `get_min_generator`, from index `i` on.
pub min_loop : List TimeSpec → ℕ → ℕ → TimeSpec → ℕ
min_loop [] i min_gen min_tv = min_gen
min_loop (t ∷ ts) i min_gen min_tv =
    let replaced = min_loop ts (i + 1) i t in
    let kept = min_loop ts (i + 1) min_gen min_tv in
    if ltb_ℤ (pos 0) (timespec_diff t min_tv) then replaced else kept

-- `none` is the result -1.
pub get_min_generator : List TimeSpec → Option ℕ
get_min_generator [] = none
get_min_generator (t ∷ ts) = some (min_loop ts 1 0 t)

-- What a round of `start_user_traffic_generator` does: it sleeps for as many microseconds, or calls
-- `send_pkt` for a generator.
pub data Step : Type 0 where
  usleep : ℕ → Step
  send_pkt : ℕ → Step

-- The round, once it has the difference as an `int32_t`.
pub act_on : ℤ → ℕ → Step
act_on (pos zero) nr = send_pkt nr
act_on (pos (suc n)) nr = usleep (suc n)
act_on (negsuc n) nr = send_pkt nr

pub user_round : List TimeSpec → TimeVal → Run Step
user_round states now = elim (get_min_generator states) [
  | none ↦ ok (usleep 100_000)
  | some nr ↦ elim (get_elem? states nr) [
    | none ↦ fault
    | some t ↦ ok (act_on (to_int32 (pos (time_diff now (ts_to_tv t)))) nr)
  ]
]
