-- ===== src/AlertGenerator/Cases/NewAlerts/Groups.antt =====
-- The rule groups that the case expects, against the alerts that it expects.
use compliance.Base.{ℕ, ◌≡◌, refl, ◌&&◌, List, map, String, some}
use compliance.AlertGenerator.Cases.Rules.{alerting_rules, rule_alerts}
use compliance.AlertGenerator.Cases.Common.Groups.{alerts_of, map-when, map-when_append}
use compliance.AlertGenerator.Cases.NewAlerts.{all_possible_states, exp_alerts, exp_rule_groups}

module _ {L : Type 0} (from_strings : List String → L) where
  -- At every instant the case expects the same of the rules API as of the alerts API: there is one
  -- expected rule group for each expected list of alerts, in the same order, and the alerts of its
  -- two rules are together that list.
  pub new_rule_groups-exp_alerts :
      (r1_query r2_query : String) (zero_time ts : ℕ)
      → map alerts_of (exp_rule_groups from_strings r1_query r2_query zero_time ts)
        ≡ map some (exp_alerts from_strings zero_time ts)
  unfolding exp_rule_groups exp_alerts alerting_rules rule_alerts
  new_rule_groups-exp_alerts r1_query r2_query zero_time ts =
      let s = all_possible_states ts in
      map-when_append alerts_of some (s.r11_inactive && s.r12_inactive) _ _ _ _ refl (
        map-when_append alerts_of some (s.r11_pending && s.r12_inactive) _ _ _ _ refl (
          map-when_append alerts_of some (s.r11_firing && s.r12_inactive) _ _ _ _ refl (
            map-when_append alerts_of some (s.r11_firing && s.r12_pending) _ _ _ _ refl
              (map-when alerts_of some (s.r11_firing && s.r12_firing) _ _ refl))))
