-- ===== src/Cbench/Runs.antt =====
-- `run_test` over the emulated switches.
use oflops_turbo.Base.{ℕ, ◌+◌, Bool, List, [], ◌∷◌, ok, IfOk, IfOk-if, IfOk-then}
use oflops_turbo.Time.{TimeVal}
use oflops_turbo.MsgBuf.{Bytes, Received}
use oflops_turbo.FakeSwitch.{FakeSwitch, fakeswitch_get_count}
use oflops_turbo.FakeSwitch.Reply.{Protocol}
use oflops_turbo.FakeSwitch.Probes.{IsSingle, handle_io-IsSingle, get_count-IsSingle}
use oflops_turbo.Cbench.{Polled, handle_round, rounds, collect, run_test}

abbrev pub AllSingle : List FakeSwitch → Type 0
AllSingle [] = Unit
AllSingle (fs ∷ rest) = IsSingle fs × AllSingle rest

module _ (of : Protocol) (fresh : ℕ → ℕ) where
  handle_round-AllSingle :
      (fs : List FakeSwitch) (polled : List Polled)
      → AllSingle fs
      → IfOk AllSingle (handle_round of fresh fs polled)
  unfolding handle_round
  handle_round-AllSingle [] polled s = tt
  handle_round-AllSingle (fs ∷ rest) [] s = tt
  handle_round-AllSingle (fs ∷ rest) (p ∷ polled) s =
      IfOk-then {A = Bytes × FakeSwitch} (λ r. IsSingle r.1) AllSingle _ _
        (handle_io-IsSingle of fresh p.now p.pollin p.pollout p.read p.write p.again fs s.0)
        λ r sr.
          IfOk-then AllSingle AllSingle (handle_round of fresh rest polled) _
            (handle_round-AllSingle rest polled s.1) λ rest' sr'. (sr, sr')

  rounds-AllSingle :
      (expired : TimeVal → Bool) (polls : List (TimeVal × List Polled)) (fs : List FakeSwitch)
      → AllSingle fs
      → IfOk AllSingle (rounds of fresh expired polls fs)
  unfolding rounds
  rounds-AllSingle expired [] fs s = tt
  rounds-AllSingle expired ((now, polled) ∷ later) fs s =
      IfOk-if AllSingle (expired now) (ok fs) _ s (
        IfOk-then AllSingle AllSingle (handle_round of fresh fs polled) _
          (handle_round-AllSingle fs polled s) λ fs' s'. rounds-AllSingle expired later fs' s')

  collect-AllSingle :
      (fs : List FakeSwitch) (reads : List (List (ℕ → Received))) (sum : ℕ)
      → AllSingle fs
      → IfOk {A = ℕ × List FakeSwitch} (λ r. AllSingle r.1) (collect of fresh fs reads sum)
  unfolding collect
  collect-AllSingle [] reads sum s = tt
  collect-AllSingle (fs ∷ rest) [] sum s = tt
  collect-AllSingle (fs ∷ rest) (r ∷ reads) sum s =
      IfOk-then {A = ℕ × FakeSwitch} (λ g. IsSingle g.1) (λ g. AllSingle g.1)
        (fakeswitch_get_count fresh r fs) _ (get_count-IsSingle fresh r fs s.0)
        λ g sg.
          IfOk-then {A = ℕ × List FakeSwitch} (λ h. AllSingle h.1) (λ h. AllSingle h.1)
            (collect of fresh rest reads (sum + g.0)) _
            (collect-AllSingle rest reads (sum + g.0) s.1) λ h sh. (sg, sh)

  -- A test in latency mode keeps the counter `probe_state` of each switch at 0 or 1, from the
  -- first round to the counts at its end, whatever the controller, the sockets and the clocks do.
  pub run_test-AllSingle :
      (expired : TimeVal → Bool) (polls : List (TimeVal × List Polled))
      (reads : List (List (ℕ → Received))) (fs : List FakeSwitch)
      → AllSingle fs
      → IfOk {A = ℕ × List FakeSwitch}
          (λ r. AllSingle r.1)
          (run_test of fresh expired polls reads fs)
  unfolding run_test
  run_test-AllSingle expired polls reads fs s =
      IfOk-then AllSingle (λ r. AllSingle r.1) (rounds of fresh expired polls fs) _
        (rounds-AllSingle expired polls fs s) λ fs' s'. collect-AllSingle fs' reads 0 s'
