-- ===== src/AlertGenerator/Cases/Together.antt =====
-- What the cases of alert_generator/cases/all_cases.go have in common.
use compliance.Base.{ℕ, ◌≡◌, false, List, map, String, some, All}
use compliance.AlertGenerator.ExpectedAlert.{ExpectedAlert, should_be_ignored}
use compliance.AlertGenerator.Cases.Common.Numbering.{Numbered}
use compliance.AlertGenerator.Cases.Common.Groups.{alerts_of}
use compliance.AlertGenerator.Cases.PendingFiring
use compliance.AlertGenerator.Cases.PendingFiring.Sending as FiringSending
use compliance.AlertGenerator.Cases.PendingFiring.Numbering.{expected_alerts-Numbered}
use compliance.AlertGenerator.Cases.PendingFiring.Groups.{exp_rule_groups-exp_alerts}
use compliance.AlertGenerator.Cases.PendingResolved
use compliance.AlertGenerator.Cases.PendingResolved.Groups.{resolved_rule_groups-exp_alerts}
use compliance.AlertGenerator.Cases.ZeroFor
use compliance.AlertGenerator.Cases.ZeroFor.Sending as ForSending
use compliance.AlertGenerator.Cases.ZeroFor.Sending.{for_expected_alerts-Numbered}
use compliance.AlertGenerator.Cases.ZeroFor.Groups.{for_rule_groups-exp_alerts}
use compliance.AlertGenerator.Cases.NewAlerts
use compliance.AlertGenerator.Cases.NewAlerts.Sending as NewSending
use compliance.AlertGenerator.Cases.NewAlerts.Sending.{new_expected_alerts-Numbered}
use compliance.AlertGenerator.Cases.NewAlerts.Groups.{new_rule_groups-exp_alerts}

-- Numbered 1, 2, 3 and so on, and none to be ignored at once.
abbrev pub IsOrderly : {L : Type 0} → List (ExpectedAlert L) → Type 0
IsOrderly eas = Numbered 0 eas × All (λ ea. should_be_ignored ea ≡ false) eas

module _ {L : Type 0} (from_strings : List String → L) where
  -- The alerts that a case expects to be sent, for each of the three cases that expect any and
  -- whatever its start, are numbered 1, 2, 3 and so on by OrderingID in the order of the list, over
  -- all its rules, and the server drops none of them at once: each comes before its next state and,
  -- if resolved, within 15 minutes of its resolution.
  pub expected_alerts-IsOrderly :
      (zero_time : ℕ)
      → IsOrderly (FiringSending.expected_alerts from_strings zero_time)
        × IsOrderly (ForSending.expected_alerts from_strings zero_time)
        × IsOrderly (NewSending.expected_alerts from_strings zero_time)
  expected_alerts-IsOrderly zero_time = (
    expected_alerts-Numbered from_strings zero_time,
    for_expected_alerts-Numbered from_strings zero_time,
    new_expected_alerts-Numbered from_strings zero_time,
  )

  -- At every instant each of the four cases expects the same of the rules API as of the alerts API:
  -- there is one expected rule group for each expected list of alerts, in the same order, and the
  -- alerts of its rules are together that list.
  pub rule_groups-exp_alerts :
      (q r : String) (a b : L) (zero_time ts : ℕ)
      → (map alerts_of (PendingFiring.exp_rule_groups from_strings q zero_time ts)
          ≡ map some (PendingFiring.exp_alerts from_strings zero_time ts))
        × (map alerts_of (PendingResolved.exp_rule_groups from_strings q r zero_time ts)
            ≡ map some (PendingResolved.exp_alerts from_strings zero_time ts))
        × (map alerts_of (ZeroFor.exp_rule_groups from_strings q r a b zero_time ts)
            ≡ map some (ZeroFor.exp_alerts from_strings zero_time ts))
        × (map alerts_of (NewAlerts.exp_rule_groups from_strings q r zero_time ts)
            ≡ map some (NewAlerts.exp_alerts from_strings zero_time ts))
  rule_groups-exp_alerts q r a b zero_time ts = (
    exp_rule_groups-exp_alerts from_strings q zero_time ts,
    resolved_rule_groups-exp_alerts from_strings q r zero_time ts,
    for_rule_groups-exp_alerts from_strings q r a b zero_time ts,
    new_rule_groups-exp_alerts from_strings q r zero_time ts,
  )
