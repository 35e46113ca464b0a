-- ===== src/AlertGenerator/Cases/PendingFiring/Groups.antt =====
-- The rule groups that the case expects, against the alerts that it expects.
use compliance.Base.{ℕ, ◌≡◌, refl, List, map, String, some, ◌||◌}
use compliance.AlertGenerator.Cases.Rules.{alerting_rules, rule_alerts}
use compliance.AlertGenerator.Cases.Common.Groups.{alerts_of, map-when, map-when_append}
use compliance.AlertGenerator.Cases.PendingFiring.{all_possible_states, exp_alerts, exp_rule_groups}

module _ {L : Type 0} (from_strings : List String → L) where
  -- At every instant the case expects the same of the rules API as of the alerts API: there is one
  -- expected rule group for each expected list of alerts, in the same order, and the alerts of its
  -- rules are that list.
  pub exp_rule_groups-exp_alerts :
      (query : String) (zero_time ts : ℕ)
      → map alerts_of (exp_rule_groups from_strings query zero_time ts)
        ≡ map some (exp_alerts from_strings zero_time ts)
  unfolding exp_rule_groups exp_alerts alerting_rules rule_alerts
  exp_rule_groups-exp_alerts query zero_time ts =
      let s = all_possible_states ts in
      map-when_append alerts_of some s.can_be_inactive _ _ _ _ refl (
        map-when_append alerts_of some s.can_be_pending1 _ _ _ _ refl (
          map-when_append alerts_of some (s.can_be_pending2 || s.pending_again) _ _ _ _ refl (
            map-when_append alerts_of some (s.can_be_firing1 || s.firing_again) _ _ _ _ refl
              (map-when alerts_of some s.can_be_firing2 _ _ refl))))
