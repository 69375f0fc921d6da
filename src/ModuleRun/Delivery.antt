-- ===== src/ModuleRun/Delivery.antt =====
-- Which packets `test_module_loop` hands to the test module.
use mathlib.Core.List.{append-nil}
use oflops_turbo.Base.{◌≡◌, ◌∙◌, true, false, List, ◌++◌, Returns, Returns-map}
use oflops_turbo.ModuleRun.{Watched, Capture, PollResult, test_module_loop}
use oflops_turbo.ModuleRun.Channels.{AllByPcap, AllDistinct, Polls, all_packets}
use oflops_turbo.ModuleRun.Handed.{test_module_loop-Adds}

module _ (cs : List Watched) (by : AllByPcap cs) (distinct : AllDistinct cs) where
  -- All channels capture with libpcap, if at all, and none has the descriptor of a later channel that
  -- captures. Where `poll` does not fail and reports nothing but packets to read, the loop of
  -- `test_module_loop` in a started test returns, and has handed each packet that libpcap found to the
  -- test module once, in order, with the number of the channel that it was captured on.
  pub test_module_loop-delivers :
      (ps : List PollResult) (s : Capture)
      → Polls cs ps
      → s.started ≡ true
      → Returns (λ t. t.handled ≡ s.handled ++ all_packets cs ps) (test_module_loop cs ps s)
  test_module_loop-delivers ps s polls on =
      Returns-map (test_module_loop-Adds true cs by distinct ps s polls on) λ t a. a.handled

  -- Before the test has started the same channels hand over nothing.
  pub test_module_loop-waits :
      (ps : List PollResult) (s : Capture)
      → Polls cs ps
      → s.started ≡ false
      → Returns (λ t. t.handled ≡ s.handled) (test_module_loop cs ps s)
  test_module_loop-waits ps s polls off =
      Returns-map (test_module_loop-Adds false cs by distinct ps s polls off)
        λ t a. a.handled ∙ append-nil s.handled
