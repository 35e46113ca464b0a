-- ===== src/AlertGenerator/Cases/ZeroFor/Passing.antt =====
-- CheckAlerts of alert_generator/cases/case_zero_for_and_small_for.go on the answers of an API that
-- evaluates the rules correctly.
use compliance.Base.{ℕ, ◌+◌, ◌*◌, ◌≤◌, ◌<◌, ◌≡◌, All, List, String, none, arith}
use compliance.AlertGenerator.Api.{second}
use compliance.AlertGenerator.Cases.Checks.{ApiAlert, CheckApi}
use compliance.AlertGenerator.Cases.Checks.Agreement.{AlertsAgree}
use compliance.AlertGenerator.Cases.Checks.Accepting.{IsDated}
use compliance.AlertGenerator.Cases.Common.{group_interval, nth}
use compliance.AlertGenerator.Cases.Common.Timeline.{AlertState, evaluate, Throughout}
use compliance.AlertGenerator.Cases.Common.Passing.{expected-Throughout}
use compliance.AlertGenerator.Cases.ZeroFor.{samples, exp_alerts}
use compliance.AlertGenerator.Cases.ZeroFor.Timeline.{reported, evaluate-IsExpected_for}
use compliance.AlertGenerator.Cases.ZeroFor.Checking.{check_alerts}

exp_alerts-IsDated :
    {L : Type 0} (from_strings : List String → L) (zero_time ts : ℕ)
    → All (All IsDated) (exp_alerts from_strings zero_time ts)
unfolding exp_alerts
exp_alerts-IsDated from_strings zero_time ts = ground arith

module _ {L : Type 0} (api : CheckApi L ℕ) (from_strings : List String → L)
    (zero_time first : ℕ) where
  -- So long after its start, the case accepts every answer that agrees with what an API reports
  -- in the state.
  abbrev pub Accepts : ℕ → AlertState → Type 0
  Accepts ts s =
      (act : List (ApiAlert L))
      → AlertsAgree api (group_interval * second) act (reported from_strings zero_time first ts s)
      → check_alerts api from_strings zero_time (zero_time + ts) act ≡ none

  -- An API that evaluates the rules correctly passes CheckAlerts, when the first evaluation that
  -- finds the rules active comes within a group interval after the 8th sample: at every instant
  -- after a sample, for a sample interval and a group interval, CheckAlerts accepts each answer that
  -- agrees with what the samples of the case lead to. The alert of the first rule fires at once; that
  -- of the second one is pending until a group interval after that evaluation, fires from then on,
  -- and is not active at the samples of 11. An answer agrees when it has as many alerts and, both
  -- sorted by labels, its alerts have the labels, annotations, states and values of the expected
  -- ones, and each ActiveAt comes within the group interval and two request times after the expected
  -- one.
  pub zero_for_passes :
      nth 8 < first
      → first ≤ nth 8 + 1000 * group_interval
      → Throughout Accepts 0 (evaluate 0 none samples)
  unfolding check_alerts
  zero_for_passes after soon =
      expected-Throughout api zero_time (exp_alerts from_strings zero_time)
        (reported from_strings zero_time first) (exp_alerts-IsDated from_strings zero_time) _
        (evaluate-IsExpected_for from_strings zero_time first after soon)
