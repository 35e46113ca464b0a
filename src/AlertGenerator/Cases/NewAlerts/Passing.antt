-- ===== src/AlertGenerator/Cases/NewAlerts/Passing.antt =====
-- CheckAlerts of alert_generator/cases/case_new_alerts_and_order_check.go on the answers of an API that
-- evaluates the rules correctly.
use compliance.Base.{ℕ, ◌+◌, ◌*◌, ◌≡◌, All, List, String, none, arith}
use compliance.AlertGenerator.Api.{second}
use compliance.AlertGenerator.Cases.Checks.{ApiAlert, CheckApi}
use compliance.AlertGenerator.Cases.Checks.Agreement.{AlertsAgree}
use compliance.AlertGenerator.Cases.Checks.Accepting.{IsDated}
use compliance.AlertGenerator.Cases.Common.{group_interval}
use compliance.AlertGenerator.Cases.Common.Timeline.{AlertState, evaluate, Throughout}
use compliance.AlertGenerator.Cases.Common.Passing.{expected-Throughout}
use compliance.AlertGenerator.Cases.NewAlerts.{for_samples, samples1, samples2, exp_alerts}
use compliance.AlertGenerator.Cases.NewAlerts.Timeline.{both, reported, evaluate-IsExpected}
use compliance.AlertGenerator.Cases.NewAlerts.Checking.{check_alerts}

exp_alerts-IsDated :
    {L : Type 0} (from_strings : List String → L) (zero_time ts : ℕ)
    → All (All IsDated) (exp_alerts from_strings zero_time ts)
unfolding exp_alerts
exp_alerts-IsDated from_strings zero_time ts = ground arith

module _ {L : Type 0} (api : CheckApi L ℕ) (from_strings : List String → L) (zero_time : ℕ) where
  -- So long after its start, the case accepts every answer that agrees with what an API reports
  -- in the states.
  abbrev pub Accepts : ℕ → AlertState × AlertState → Type 0
  Accepts ts states =
      (act : List (ApiAlert L))
      → AlertsAgree api (group_interval * second) act (reported from_strings zero_time states)
      → check_alerts api from_strings zero_time (zero_time + ts) act ≡ none

  -- An API that evaluates the rules correctly passes CheckAlerts: what the rules make of the samples
  -- that the case writes gives the state of each variant at each sample (inactive up to 10, pending,
  -- firing after 12 samples above 10), up to the last sample of the longer series, where variant two,
  -- whose series is shorter, stays inactive after its last one; and CheckAlerts accepts, at every instant after the sample
  -- for a sample interval and a group interval, each answer that agrees with the alerts of these
  -- states, the alert of the second rule included when both variants fire. An answer agrees when it
  -- has as many alerts and, both sorted by labels, its alerts have the labels, annotations, states
  -- and values of the expected ones, and each ActiveAt comes within the group interval and two
  -- request times after the expected one.
  pub new_alerts_pass :
      Throughout Accepts 0
        (both (evaluate for_samples none samples1) (evaluate for_samples none samples2))
  unfolding check_alerts
  new_alerts_pass =
      expected-Throughout api zero_time (exp_alerts from_strings zero_time)
        (λ ts states. reported from_strings zero_time states)
        (exp_alerts-IsDated from_strings zero_time) _ (evaluate-IsExpected from_strings zero_time)
