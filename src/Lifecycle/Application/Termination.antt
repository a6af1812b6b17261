-- ===== src/Lifecycle/Application/Termination.antt =====
-- The loop of `Advance.__call__` of application/lifecycle.py ends.
use agentic_investment_os.Prelude.{
  ℕ, zero, suc, ◌<◌, ◌≡◌, refl, Option, some, Result, ok, err, arith,
}
use agentic_investment_os.Lifecycle.Command.{Fingerprints}
use agentic_investment_os.Lifecycle.Application.Interface.{AdvanceReport, Capabilities}
use agentic_investment_os.Lifecycle.Application.Loop.{
  LoopState, Round, continue_with, report, round, after, advance,
}
use agentic_investment_os.Lifecycle.Application.Measure.{measure, measure_bounded, round-decreases}

after-ends :
    (again : LoopState → Option (Result AdvanceReport)) (r : Result Round)
    → ((t : LoopState) → r ≡ ok (continue_with t) → (x : Result AdvanceReport) × (again t ≡ some x))
    → (x : Result AdvanceReport) × (after again r ≡ some x)
after-ends again (err e) ends = (err e, refl)
after-ends again (ok (report x)) ends = (ok x, refl)
after-ends again (ok (continue_with t)) ends = ends t refl

module _ {Inputs : Type 0} (h : Fingerprints) (cap : Capabilities Inputs) where
  advance-ends :
      (fuel : ℕ) (s : LoopState)
      → measure s < fuel
      → (x : Result AdvanceReport) × (advance h cap fuel s ≡ some x)
  unfolding advance
  advance-ends zero s enough = absurd (omega (arith, enough))
  advance-ends (suc fuel) s enough =
      after-ends (advance h cap fuel) (round h cap s)
        (λ t e. advance-ends fuel t (omega (arith, enough, round-decreases h cap s t e)))

  -- Whatever the history, the command, the clock and the capabilities are, the loop leaves with a report
  -- or an exception within 19 rounds.
  pub advance_terminates :
      (s : LoopState) → (x : Result AdvanceReport) × (advance h cap 19 s ≡ some x)
  advance_terminates s = advance-ends 19 s (measure_bounded s)
