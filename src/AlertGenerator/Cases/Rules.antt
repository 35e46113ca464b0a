-- ===== src/AlertGenerator/Cases/Rules.antt =====
-- alert_generator/cases/utils.go: checkExpectedRuleGroup and areRulesEqual.
pub mod RulesAgree
use Prim.Native.Nat.{Ordering}
use Prim.Native.String.{compare as compare_names}
use compliance.Base.{
  ℕ, ◌+◌, ◌*◌, ◌==◌, ltb, String, Bool, true, false, not, ◌&&◌, ◌||◌, List, [], ◌∷◌, ◌++◌, Option,
  none, some, str_eq, if◌then◌else◌, length, sort_slice,
}
use compliance.AlertGenerator.Api.{Time, Duration}
use compliance.AlertGenerator.ExpectedAlert.{max_rtt}
use compliance.AlertGenerator.Cases.Checks.{
  ApiAlert, CheckApi, CheckError, panics, check_any, first_error, same_labels, labels_le,
  check_expected_alerts,
}

-- v1.AlertingRule. `query` is the text of the expression.
pub record AlertingRule (L F : Type 0) : Type 0 where
  pub state : String
  pub name : String
  pub query : String
  pub duration : F
  pub labels : L
  pub annotations : L
  pub alerts : List (ApiAlert L)
  pub health : String
  pub last_error : String
  pub last_evaluation : Time
  pub type : String

-- v1.Rule: an alerting rule or one of another kind.
pub data Rule (L F : Type 0) : Type 0 where
  alerting : AlertingRule L F → Rule L F
  recording : Rule L F

-- v1.RuleGroup.
pub record RuleGroup (L F : Type 0) : Type 0 where
  pub name : String
  pub file : String
  pub interval : F
  pub evaluation_time : F
  pub last_evaluation : Time
  pub rules : List (Rule L F)

-- Why an expected group does not agree. The last two stand for panics of the test suite.
pub data RulesError : Type 0 where
  query_unparsable rule_mismatch late_rule : RulesError
  wrong_name wrong_interval late_group different_rules : RulesError
  alerts_differ : List CheckError → RulesError
  bad_rules no_actual_rule : RulesError

abbrev any_panics : List CheckError → Bool
any_panics [] = false
any_panics (err ∷ errs) = let rest = any_panics errs in panics err || rest

abbrev rules_panic : RulesError → Bool
rules_panic bad_rules = true
rules_panic no_actual_rule = true
rules_panic (alerts_differ errs) = any_panics errs
rules_panic _ = false

pub data GroupError : Type 0 where
  not_alerting : GroupError
  groups_differ : List RulesError → GroupError

abbrev alerts_error_of : Option (List CheckError) → Option RulesError
alerts_error_of none = none
alerts_error_of (some errs) = some (alerts_differ errs)

abbrev groups_error_of : Option (List RulesError) → Option GroupError
groups_error_of none = none
groups_error_of (some errs) = some (groups_differ errs)

-- The alerting rules of a group, if all its rules are alerting.
unfoldable pub alerting_rules : {L F : Type 0} → List (Rule L F) → Option (List (AlertingRule L F))
alerting_rules [] = some []
alerting_rules (recording ∷ rules) = none
alerting_rules (alerting ar ∷ rules) = elim (alerting_rules rules) [
  | none ↦ none
  | some ars ↦ some (ar ∷ ars)
]

-- The alerts of the rules, in order.
unfoldable pub rule_alerts : {L F : Type 0} → List (AlertingRule L F) → List (ApiAlert L)
rule_alerts [] = []
rule_alerts (ar ∷ ars) = ar.alerts ++ rule_alerts ars

module _ {L F : Type 0} (api : CheckApi L F) where
  -- The order of alerting rules: by name, then by labels.
  abbrev rule_before : AlertingRule L F → AlertingRule L F → Bool
  rule_before l r = elim (compare_names l.name r.name) [
    | Ordering.lt ↦ true
    | Ordering.eq ↦ labels_le api l.labels r.labels
    | Ordering.gt ↦ false
  ]

  -- The switch of areRulesEqual, without the queries.
  abbrev same_rule : AlertingRule L F → AlertingRule L F → Bool
  same_rule e a =
      str_eq e.state a.state
      && (str_eq e.name a.name
          && (api.float_eq e.duration a.duration
              && (same_labels api e.labels a.labels
                  && (same_labels api e.annotations a.annotations
                      && (str_eq e.health a.health
                          && (str_eq e.type a.type && str_eq e.last_error a.last_error))))))

  -- An evaluation lies before the cut-off: an interval and a request time before now.
  abbrev is_late : Time → Duration → Time → Bool
  is_late now itvl last = ltb (last + (max_rtt + itvl)) now

  abbrev rule_error_of :
      Time
      → Duration
      → AlertingRule L F
      → AlertingRule L F
      → Option String
      → Option String
      → Option RulesError
  rule_error_of now itvl e a none aq = some bad_rules
  rule_error_of now itvl e a (some eq) none = some query_unparsable
  rule_error_of now itvl e a (some eq) (some aq) =
      if not (same_rule e a && str_eq eq aq)
      then some rule_mismatch
      else if is_late now itvl a.last_evaluation
      then some late_rule
      else none

  -- The body of the loop of areRulesEqual.
  unfoldable pub rule_error :
      Time → Duration → AlertingRule L F → AlertingRule L F → Option RulesError
  rule_error now itvl e a =
      rule_error_of now itvl e a (api.parse_expr e.query) (api.parse_expr a.query)

  -- areRulesEqual after its first loop.
  abbrev alerting_rules_error :
      Time
      → Duration
      → List (AlertingRule L F)
      → List (ApiAlert L)
      → Option (List (AlertingRule L F))
      → Option RulesError
  alerting_rules_error now itvl act_rules act_alerts none = some bad_rules
  alerting_rules_error now itvl act_rules act_alerts (some exp) =
      elim (first_error no_actual_rule (rule_error now itvl) (sort_slice rule_before exp)
        act_rules) [
          | none ↦
              alerts_error_of (check_expected_alerts api (rule_alerts exp ∷ []) act_alerts itvl)
          | some err ↦ some err
        ]

  -- areRulesEqual.
  unfoldable are_rules_equal :
      Time
      → Duration
      → List (Rule L F)
      → List (AlertingRule L F)
      → List (ApiAlert L)
      → Option RulesError
  unfolding first_error rule_error check_expected_alerts rule_alerts alerting_rules
  are_rules_equal now itvl exp act_rules act_alerts =
      alerting_rules_error now itvl act_rules act_alerts (alerting_rules exp)

  -- The body of the loop over the expected groups.
  unfoldable group_error_of :
      Time
      → RuleGroup L F
      → List (AlertingRule L F)
      → List (ApiAlert L)
      → RuleGroup L F
      → Option RulesError
  unfolding are_rules_equal
  group_error_of now act_rg act_rules act_alerts rg =
      if not (str_eq rg.name act_rg.name)
      then some wrong_name
      else if not (api.float_eq rg.interval act_rg.interval)
      then some wrong_interval
      else if is_late now (api.in_seconds rg.interval) act_rg.last_evaluation
      then some late_group
      else if not (length rg.rules == length act_rg.rules)
      then some different_rules
      else are_rules_equal now (api.in_seconds rg.interval) rg.rules act_rules act_alerts

  abbrev check_groups :
      Time
      → List (RuleGroup L F)
      → RuleGroup L F
      → Option (List (AlertingRule L F))
      → Option GroupError
  check_groups now exp_rgs act_rg none = some not_alerting
  check_groups now exp_rgs act_rg (some ars) = groups_error_of (
      check_any rules_panic
        (group_error_of now act_rg (sort_slice rule_before ars) (rule_alerts ars)) [] exp_rgs)

  -- checkExpectedRuleGroup.
  unfoldable pub check_expected_rule_group :
      Time → List (RuleGroup L F) → RuleGroup L F → Option GroupError
  unfolding check_any group_error_of alerting_rules rule_alerts
  check_expected_rule_group now exp_rgs act_rg =
      check_groups now exp_rgs act_rg (alerting_rules act_rg.rules)
