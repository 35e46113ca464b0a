-- ===== src/AlertGenerator/Cases/PendingResolved/Passing.antt =====
-- CheckAlerts of alert_generator/cases/case_pending_resolved_and_always_inactive.go on the answers of an API that
-- evaluates the rules correctly.
use compliance.Base.{ℕ, ◌+◌, ◌*◌, ◌≡◌, All, List, String, none, arith}
use compliance.AlertGenerator.Api.{second}
use compliance.AlertGenerator.Cases.Checks.{ApiAlert, CheckApi}
use compliance.AlertGenerator.Cases.Checks.Agreement.{AlertsAgree}
use compliance.AlertGenerator.Cases.Checks.Accepting.{IsDated}
use compliance.AlertGenerator.Cases.Common.{group_interval}
use compliance.AlertGenerator.Cases.Common.Timeline.{AlertState, evaluate, Throughout}
use compliance.AlertGenerator.Cases.Common.Passing.{expected-Throughout}
use compliance.AlertGenerator.Cases.PendingResolved.{for_samples, samples, exp_alerts}
use compliance.AlertGenerator.Cases.PendingResolved.Timeline.{reported, evaluate-IsExpected_pending}
use compliance.AlertGenerator.Cases.PendingResolved.Checking.{check_alerts}

exp_alerts-IsDated :
    {L : Type 0} (from_strings : List String → L) (zero_time ts : ℕ)
    → All (All IsDated) (exp_alerts from_strings zero_time ts)
unfolding exp_alerts
exp_alerts-IsDated from_strings zero_time ts = ground arith

module _ {L : Type 0} (api : CheckApi L ℕ) (from_strings : List String → L) (zero_time : ℕ) where
  -- So long after its start, the case accepts every answer that agrees with what an API reports
  -- in the state.
  abbrev pub Accepts : ℕ → AlertState → Type 0
  Accepts ts s =
      (act : List (ApiAlert L))
      → AlertsAgree api (group_interval * second) act (reported from_strings zero_time s)
      → check_alerts api from_strings zero_time (zero_time + ts) act ≡ none

  -- An API that evaluates the rules correctly passes CheckAlerts: at every instant after a sample, for
  -- a sample interval and a group interval, CheckAlerts accepts each answer that agrees with what the
  -- samples of the case lead to, which is an alert that is pending while the samples are above 10, and
  -- nothing else. An answer agrees when it has as many alerts and, both sorted by labels, its alerts
  -- have the labels, annotations, states and values of the expected ones, and each ActiveAt comes
  -- within the group interval and two request times after the expected one.
  pub pending_resolved_passes : Throughout Accepts 0 (evaluate for_samples none samples)
  unfolding check_alerts
  pending_resolved_passes =
      expected-Throughout api zero_time (exp_alerts from_strings zero_time)
        (λ ts s. reported from_strings zero_time s) (exp_alerts-IsDated from_strings zero_time) _
        (evaluate-IsExpected_pending from_strings zero_time)
