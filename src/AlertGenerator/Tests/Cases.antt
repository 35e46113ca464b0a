-- ===== src/AlertGenerator/Tests/Cases.antt =====
-- The test cases of the alert generator, with label sets that only count their strings.
use compliance.Base.{
  refl, ◌+◌, [], ◌∷◌, sort_slice, ℕ, ◌≡◌, String, List, length, map, none, some, arith,
}
use compliance.AlertGenerator.Tests.Checks.{checks}
use compliance.AlertGenerator.Cases.Common.Groups.{alerts_of}
use compliance.AlertGenerator.Cases.Common.Timeline.{evaluate, Throughout}
use compliance.AlertGenerator.Cases.PendingFiring
use compliance.AlertGenerator.Cases.PendingFiring.Sending as FiringSending
use compliance.AlertGenerator.Cases.PendingResolved
use compliance.AlertGenerator.Cases.ZeroFor
use compliance.AlertGenerator.Cases.ZeroFor.Sending as ForSending
use compliance.AlertGenerator.Cases.NewAlerts
use compliance.AlertGenerator.Cases.NewAlerts.Sending as NewSending
use compliance.AlertGenerator.Cases.NewAlerts.Timeline as NewTimeline
use compliance.AlertGenerator.Cases.PendingFiring.Passing as FiringPassing
use compliance.AlertGenerator.Cases.PendingResolved.Passing as ResolvedPassing
use compliance.AlertGenerator.Cases.ZeroFor.Passing as ForPassing
use compliance.AlertGenerator.Cases.NewAlerts.Passing as NewPassing
use compliance.AlertGenerator.Cases.PendingResolved.Checking.{check_alerts}
use compliance.AlertGenerator.Cases.Checks.{ApiAlert, different_number}
use compliance.AlertGenerator.Cases.Common.{from_millis, nth}
use compliance.AlertGenerator.Cases.Together.{
  IsOrderly, expected_alerts-IsOrderly, rule_groups-exp_alerts,
}

abbrev counted : List String → ℕ
counted = length

expected_alerts-IsOrderly_example :
    IsOrderly (FiringSending.expected_alerts counted 1000)
    × IsOrderly (ForSending.expected_alerts counted 1000)
    × IsOrderly (NewSending.expected_alerts counted 1000)
expected_alerts-IsOrderly_example = expected_alerts-IsOrderly counted 1000

rule_groups-exp_alerts_example :
    (map alerts_of (PendingFiring.exp_rule_groups counted "q" 1000 500)
      ≡ map some (PendingFiring.exp_alerts counted 1000 500))
    × (map alerts_of (PendingResolved.exp_rule_groups counted "q" "r" 1000 500)
        ≡ map some (PendingResolved.exp_alerts counted 1000 500))
    × (map alerts_of (ZeroFor.exp_rule_groups counted "q" "r" 1 2 1000 500)
        ≡ map some (ZeroFor.exp_alerts counted 1000 500))
    × (map alerts_of (NewAlerts.exp_rule_groups counted "q" "r" 1000 500)
        ≡ map some (NewAlerts.exp_alerts counted 1000 500))
rule_groups-exp_alerts_example = rule_groups-exp_alerts counted "q" "r" 1 2 1000 500

pending_firing_passes_example :
    Throughout
      (FiringPassing.Accepts checks counted 1000)
      0
      (evaluate PendingFiring.for_samples none PendingFiring.samples_to_remote_write)
pending_firing_passes_example = FiringPassing.pending_firing_passes checks counted 1000

new_alerts_pass_example : Throughout (NewPassing.Accepts checks counted 1000) 0 (
    NewTimeline.both
      (evaluate NewAlerts.for_samples none NewAlerts.samples1)
      (evaluate NewAlerts.for_samples none NewAlerts.samples2))
new_alerts_pass_example = NewPassing.new_alerts_pass checks counted 1000

pending_resolved_passes_example :
    Throughout
      (ResolvedPassing.Accepts checks counted 1000)
      0
      (evaluate PendingResolved.for_samples none PendingResolved.samples)
pending_resolved_passes_example = ResolvedPassing.pending_resolved_passes checks counted 1000

zero_for_passes_example :
    Throughout (ForPassing.Accepts checks counted 1000 125000) 0 (evaluate 0 none ZeroFor.samples)
zero_for_passes_example =
    ForPassing.zero_for_passes checks counted 1000 125000 (omega arith) (omega arith)

-- A pending alert at the 11th sample, where an answer without alerts is refused.
abbrev answer : List (ApiAlert ℕ)
answer = PendingResolved.pending_alert counted (from_millis (1000 + nth 8)) ∷ []

answer_accepted : check_alerts checks counted 1000 (1000 + nth 11) answer ≡ none
unfolding check_alerts sort_slice PendingResolved.all_possible_states
answer_accepted = refl

nothing_refused : check_alerts checks counted 1000 (1000 + nth 11) [] ≡ some (different_number ∷ [])
unfolding check_alerts sort_slice PendingResolved.all_possible_states
nothing_refused = refl
