-- ===== src/Cbench/Tests.antt =====
-- The statements about cbench/cbench.c at concrete settings and runs.
use oflops_turbo.Base.{ℕ, zero, ◌+◌, ◌≡◌, refl, true, false, [], ◌++◌, arith, ltb}
use oflops_turbo.Base.Int.{ℤ, pos}
use oflops_turbo.FakeSwitch.{latency}
use oflops_turbo.Cbench.{Settings, Real, Tally, counted_tests, all_tests}
use oflops_turbo.Cbench.Schedule.{sum_of, delay_of, values_from, sum-all_tests}

-- Five tests, of which the first is the warmup and the last the cooldown.
abbrev settings : Settings
settings = record {
  controller_port = pos 6633;
  n_fakeswitches = pos 16;
  total_mac_addresses = pos 100_000;
  mstestlen = pos 1000;
  should_test_range = true;
  tests_per_loop = pos 5;
  debug = false;
  warmup = pos 1;
  cooldown = pos 1;
  delay = pos 250;
  mode = latency;
}

-- The operations on whole numbers.
abbrev whole : Real ℕ
whole = record { add = λ a b. a + b; less = λ a b. ltb a b; zero_value = 0 }

-- The value of a test is its number and ten times that, and 1000 where it waits.
abbrev value : ℕ → ℤ → ℕ
value j (pos zero) = j + j
value j d = j + 1000

abbrev start : Tally ℕ
start = record { min = 9999; max = 0; sum = 0; results = []; delay = pos 250 }

sum-all_tests_example :
    (counted_tests settings ≡ pos 3)
    × (((all_tests whole settings 5 0 value start).sum
          ≡ sum_of whole 3 1 (λ j. value j (delay_of whole start.delay j)) 0)
        × ((all_tests whole settings 5 0 value start).results
            ≡ [] ++ values_from whole settings value start.delay 5 0))
sum-all_tests_example = sum-all_tests whole settings 1 1 5 refl refl refl (omega arith) value start
