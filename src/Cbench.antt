-- ===== src/Cbench.antt =====
-- cbench/cbench.c: the command line, and the tests of growing sets of emulated switches. The
-- switches are those of FakeSwitch, the options those of Options.
-- Results are of a type `V` with the operations on `double` that the code uses, a parameter. `atoi` of
-- an argument is the integer that the option carries. A call that ends the process is `aborted`.
-- Connecting to the controller and printing are not modelled.
pub mod Runs
pub mod Schedule
mod Tests
use oflops_turbo.Base.{
  ℕ, zero, suc, ◌+◌, ◌-◌, ◌*◌, ◌/◌, ◌%◌, ◌^◌, Bool, true, false, ◌&&◌, ◌||◌, not, List, [], ◌∷◌,
  ◌++◌, Option, none, some, ltb, leb, ◌==◌, if◌then◌else◌, length, take, Run, ok, aborted, fault,
  out_of_fuel, ◌>>=◌,
}
use oflops_turbo.Base.Int.{ℤ, pos, ◌+ℤ◌, ◌-ℤ◌, ltb_ℤ}
use oflops_turbo.Time.{TimeVal}
use oflops_turbo.MsgBuf.{Bytes, Received, Sent}
use oflops_turbo.FakeSwitch.{
  TestMode, latency, throughput, FakeSwitch, fakeswitch_handle_io, fakeswitch_get_count,
}
use oflops_turbo.FakeSwitch.Reply.{Protocol}

-- The variables of `main` that the command line sets, but for the name of the controller.
pub record Settings : Type 0 where
  pub controller_port : ℤ
  pub n_fakeswitches : ℤ
  pub total_mac_addresses : ℤ
  pub mstestlen : ℤ
  pub should_test_range : Bool
  pub tests_per_loop : ℤ
  pub debug : Bool
  pub warmup : ℤ
  pub cooldown : ℤ
  pub delay : ℤ
  pub mode : TestMode

-- What `getopt_long` returns: the letter of an option, with `atoi(optarg)` where it is an integer.
pub data Given : Type 0 where
  controller debug help range throughput_mode unknown : Given
  loops macs ms_per_test port switches warmup_loops cooldown_loops delay_ms : ℤ → Given

-- The switch statement.
pub apply_option : Settings → Given → Run Settings
apply_option s controller = ok s
apply_option s debug = ok (record s { debug = true })
apply_option s help = aborted
apply_option s (loops z) = ok (record s { tests_per_loop = z })
apply_option s (macs z) = ok (record s { total_mac_addresses = z })
apply_option s (ms_per_test z) = ok (record s { mstestlen = z })
apply_option s range = ok (record s { should_test_range = true })
apply_option s (port z) = ok (record s { controller_port = z })
apply_option s (switches z) = ok (record s { n_fakeswitches = z })
apply_option s throughput_mode = ok (record s { mode = throughput })
apply_option s (warmup_loops z) = ok (record s { warmup = z })
apply_option s (cooldown_loops z) = ok (record s { cooldown = z })
apply_option s (delay_ms z) = ok (record s { delay = z })
apply_option s unknown = aborted

-- The loop over the options, and the test after it.
pub parse_options : Settings → List Given → Run Settings
parse_options s [] = if ltb_ℤ (s.warmup +ℤ s.cooldown) s.tests_per_loop then ok s else aborted
parse_options s (g ∷ gs) = apply_option s g >>= λ s'. parse_options s' gs

-- `count_bits`, from bit `i` on, for a number that is not negative.
pub bits_from : ℕ → ℕ → ℕ → ℕ
bits_from zero i n = 0
bits_from (suc k) i n = (if n / 2 ^ i % 2 == 1 then 1 else 0) + bits_from k (i + 1) n

pub count_bits : ℕ → ℕ
count_bits n = bits_from 32 0 n

-- What `poll` reports of a switch, and what its sockets and its clock answer in the call.
pub record Polled : Type 0 where
  pub pollin : Bool
  pub pollout : Bool
  pub read : ℕ → Received
  pub write : Bytes → Sent
  pub again : Bool
  pub now : TimeVal

module _ (of : Protocol) (fresh : ℕ → ℕ) where
  -- One round of `run_test` over the switches.
  pub handle_round : List FakeSwitch → List Polled → Run (List FakeSwitch)
  handle_round [] polled = ok []
  handle_round (fs ∷ rest) [] = fault
  handle_round (fs ∷ rest) (p ∷ polled) = do
    (wire, fs') ← fakeswitch_handle_io of fresh p.now p.pollin p.pollout p.read p.write p.again fs
    rest' ← handle_round rest polled
    ok (fs' ∷ rest')

  -- The rounds of `run_test`, each with the time at its start; `expired` is the test whether the time
  -- is over.
  pub rounds :
      (TimeVal → Bool) → List (TimeVal × List Polled) → List FakeSwitch → Run (List FakeSwitch)
  rounds expired [] fs = out_of_fuel
  rounds expired ((now, polled) ∷ later) fs =
      let more = handle_round fs polled >>= λ fs'. rounds expired later fs' in
      if expired now then ok fs else more

  -- The counts at the end of `run_test`, and their sum; `reads` is what each socket still holds.
  pub collect : List FakeSwitch → List (List (ℕ → Received)) → ℕ → Run (ℕ × List FakeSwitch)
  collect [] reads sum = ok (sum, [])
  collect (fs ∷ rest) [] sum = fault
  collect (fs ∷ rest) (r ∷ reads) sum = do
    (count, fs') ← fakeswitch_get_count fresh r fs
    (total, rest') ← collect rest reads (sum + count)
    ok (total, fs' ∷ rest')

  -- `run_test`, up to the division by the time that has passed.
  pub run_test :
      (TimeVal → Bool)
      → List (TimeVal × List Polled)
      → List (List (ℕ → Received))
      → List FakeSwitch
      → Run (ℕ × List FakeSwitch)
  run_test expired polls reads fs = rounds expired polls fs >>= λ fs'. collect fs' reads 0

module _ (s : Settings) where
  -- The number of tests that count.
  pub counted_tests : ℤ
  counted_tests = s.tests_per_loop -ℤ s.warmup -ℤ s.cooldown

  -- Whether the test `j` belongs to the warmup or to the cooldown.
  pub leaves_out : ℤ → Bool
  leaves_out j = ltb_ℤ j s.warmup || not (ltb_ℤ j (s.tests_per_loop -ℤ s.cooldown))

  -- Whether the loop over the switches tests the first `i + 1` of them.
  pub is_tested : ℕ → Bool
  is_tested i =
      if count_bits (i + 1) == 0
      then false
      else s.should_test_range
        || not (ltb_ℤ (pos (i + 1)) s.n_fakeswitches || ltb_ℤ s.n_fakeswitches (pos (i + 1)))

-- The operations on `double`.
pub record Real (V : Type 0) : Type 0 where
  pub add : V → V → V
  pub less : V → V → Bool
  pub zero_value : V

-- `min`, `max`, `sum` and the array `results`, with what the loop over the tests leaves in `delay`.
pub record Tally (V : Type 0) : Type 0 where
  pub min : V
  pub max : V
  pub sum : V
  pub results : List V
  pub delay : ℤ

module _ {V : Type 0} (real : Real V) (s : Settings) where
  -- One test, the `j`-th, with the value that `run_test` returns for this delay.
  pub one_test : (ℤ → V) → ℤ → Tally V → Tally V
  one_test run j t =
      let delay = if ltb_ℤ (pos 0) j then pos 0 else t.delay in
      let v = run delay in
      let kept = record t { results = t.results ++ (v ∷ []); delay = delay } in
      if leaves_out s j then kept else record kept {
        sum = real.add t.sum v;
        max = if real.less t.max v then v else t.max;
        min = if real.less v t.min then v else t.min;
      }

  -- The loop over `n` tests from the `j`-th on; `run j` is the `j`-th test.
  pub all_tests : ℕ → ℕ → (ℕ → ℤ → V) → Tally V → Tally V
  all_tests zero j run t = t
  all_tests (suc n) j run t = all_tests n (j + 1) run (one_test (run j) (pos j) t)

  -- The loop over `n` switches from the `i`-th on: the tallies that are reported, with the number of
  -- switches. `min`, `max` and `delay` go on from one to the next.
  pub all_switches : ℕ → ℕ → ℕ → (ℕ → ℕ → ℤ → V) → Tally V → List (ℕ × Tally V)
  all_switches zero i tests run t = []
  all_switches (suc n) i tests run t =
      let skipped = all_switches n (i + 1) tests run t in
      let r = all_tests tests 0 (run (i + 1)) (record t { sum = real.zero_value; results = [] }) in
      let tested = (i + 1, r) ∷ all_switches n (i + 1) tests run r in
      if is_tested s i then tested else skipped
