-- ===== src/AlertGenerator/Cases/Common/Checking.antt =====
-- alert_generator/cases: what CheckRuleGroup of the four cases does with an expectation.
use compliance.Base.{ℕ, ◌*◌, List, Option, none, some, ltb, if◌then◌else◌}
use compliance.AlertGenerator.Cases.Checks.{CheckApi}
use compliance.AlertGenerator.Cases.Rules.{RuleGroup, GroupError, check_expected_rule_group}
use compliance.AlertGenerator.Cases.Common.{group_interval, from_millis}

pub data RuleGroupError : Type 0 where
  no_rule_group : RuleGroupError
  wrong_group : GroupError → RuleGroupError

abbrev group_error_of_check : Option GroupError → Option RuleGroupError
group_error_of_check none = none
group_error_of_check (some err) = some (wrong_group err)

module _ {L : Type 0} (api : CheckApi L ℕ) where
  abbrev check_found_group :
      ℕ → List (RuleGroup L ℕ) → Option (RuleGroup L ℕ) → Option RuleGroupError
  check_found_group ts exp none = some no_rule_group
  check_found_group ts exp (some rg) =
      group_error_of_check (check_expected_rule_group api (from_millis ts) exp rg)

  -- CheckRuleGroup, `rel_ts` milliseconds after the start of the case: it waits until an evaluation
  -- is done.
  unfoldable pub check_group :
      ℕ → ℕ → List (RuleGroup L ℕ) → Option (RuleGroup L ℕ) → Option RuleGroupError
  unfolding check_expected_rule_group
  check_group ts rel_ts exp rg =
      if ltb rel_ts (2 * (1000 * group_interval)) then none else check_found_group ts exp rg
