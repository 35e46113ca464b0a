-- ===== src/AlertGenerator/Cases/PendingFiring/Checking.antt =====
-- alert_generator/cases/case_pending_firing_resolved.go: CheckAlerts, CheckRuleGroup and
-- CheckMetrics, at an instant after the start of the case.
use compliance.Base.{ℕ, ◌-◌, ◌*◌, String, List, Option}
use compliance.AlertGenerator.Api.{second}
use compliance.AlertGenerator.Cases.Checks.{
  ApiAlert, Sample, CheckApi, CheckError, check_expected_alerts, check_expected_samples,
}
use compliance.AlertGenerator.Cases.Rules.{RuleGroup}
use compliance.AlertGenerator.Cases.Common.{group_interval}
use compliance.AlertGenerator.Cases.Common.Checking.{RuleGroupError, check_group}
use compliance.AlertGenerator.Cases.PendingFiring.{exp_alerts, exp_rule_groups, exp_metrics}

module _ {L : Type 0} (api : CheckApi L ℕ) (from_strings : List String → L) (zero_time : ℕ) where
  -- CheckAlerts.
  unfoldable pub check_alerts : ℕ → List (ApiAlert L) → Option (List CheckError)
  unfolding check_expected_alerts exp_alerts
  check_alerts ts alerts =
      check_expected_alerts api (exp_alerts from_strings zero_time (ts - zero_time)) alerts
        (group_interval * second)

  -- CheckRuleGroup.
  unfoldable pub check_rule_group : String → ℕ → Option (RuleGroup L ℕ) → Option RuleGroupError
  unfolding check_group exp_rule_groups
  check_rule_group query ts rg =
      check_group api ts (ts - zero_time)
        (exp_rule_groups from_strings query zero_time (ts - zero_time)) rg

  -- CheckMetrics.
  unfoldable pub check_metrics : ℕ → List (Sample L ℕ) → Option (List CheckError)
  unfolding check_expected_samples exp_metrics
  check_metrics ts samples =
      check_expected_samples api (exp_metrics from_strings zero_time (ts - zero_time)) samples
