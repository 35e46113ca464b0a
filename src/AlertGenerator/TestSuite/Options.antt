-- ===== src/AlertGenerator/TestSuite/Options.antt =====
-- alert_generator/testsuite.go: validateOpts and what NewTestSuite makes of the test cases. The
-- rule groups are those of rulefmt; RuleNode.Validate is a parameter.
use compliance.Base.{
  ℤ, pos, int_lt, ℕ, ◌+◌, String, Bool, true, not, ◌&&◌, List, [], ◌∷◌, ◌++◌, map, Option, none,
  some, str_eq, ◌==◌, ◌||◌, if◌then◌else◌, is_empty, Dict, lookup, insert, contains, Result, ok,
  err, ◌>>=◌,
}
use compliance.AlertGenerator.TestSuite.State.{Settings}

pub record Rule : Type 0 where
  pub alert : String
  pub labels : Dict String

pub record RuleGroup : Type 0 where
  pub name : String
  pub interval : ℤ
  pub rules : List Rule

-- What validateOpts and NewTestSuite use of a test case. `E` is the type of an error.
pub record CaseInfo (E : Type 0) : Type 0 where
  pub group_name : String
  pub rule_group : Result E RuleGroup

-- rulefmt.Error, for an error `V` of RuleNode.Validate.
pub record RuleError (V : Type 0) : Type 0 where
  pub group : String
  pub rule : ℕ
  pub rule_name : String
  pub error : V

pub data OptsError (E V : Type 0) : Type 0 where
  all_checks_disabled parser_not_set empty_group_name : OptsError E V
  rule_group_error : E → OptsError E V
  interval_too_small no_rules repeated_group empty_alert_name : String → OptsError E V
  repeated_alert missing_rulegroup_label : String → OptsError E V
  invalid_rules : List (RuleError V) → OptsError E V

abbrev min_configured_group_interval : ℤ
min_configured_group_interval = pos 0

abbrev pub or_empty : Option String → String
or_empty none = ""
or_empty (some s) = s

abbrev pub rule_error : {V : Type 0} → String → ℕ → String → V → RuleError V
rule_error group i name e = record { group = group; rule = i; rule_name = name; error = e }

abbrev pub loaded : {E V : Type 0} → Result E RuleGroup → Result (OptsError E V) RuleGroup
loaded (ok rg) = ok rg
loaded (err e) = err (rule_group_error e)

module _ {E V : Type 0} (validate : Rule → List V) where
  -- The loop over the rules of a group. It returns the alert names seen.
  unfoldable pub validate_rules :
      String → ℕ → List (RuleError V) → Dict Bool → List Rule → Result (OptsError E V) (Dict Bool)
  validate_rules group i merr seen [] = if is_empty merr then ok seen else err (invalid_rules merr)
  validate_rules group i merr seen (r ∷ rules) =
      let merr' = merr ++ map (rule_error group (i + 1) r.alert) (validate r) in
      let rest = validate_rules group (i + 1) merr' (insert r.alert true seen) rules in
      if str_eq r.alert ""
      then err (empty_alert_name group)
      else if contains r.alert seen
      then err (repeated_alert r.alert)
      else if not (str_eq (or_empty (lookup "rulegroup" r.labels)) group)
      then err (missing_rulegroup_label r.alert)
      else if not (is_empty merr')
      then err (invalid_rules merr')
      else rest

  -- The loop body of validateOpts, on a rule group.
  unfoldable pub validate_group :
      RuleGroup → Dict Bool → Dict Bool → Result (OptsError E V) (Dict Bool)
  unfolding validate_rules
  validate_group rg seen_groups seen_alerts =
      if int_lt rg.interval min_configured_group_interval
      then err (interval_too_small rg.name)
      else if is_empty rg.rules
      then err (no_rules rg.name)
      else if str_eq rg.name ""
      then err empty_group_name
      else if contains rg.name seen_groups
      then err (repeated_group rg.name)
      else validate_rules rg.name 0 [] seen_alerts rg.rules

  -- The loop over the test cases. It returns the rule groups, which are read but not kept.
  unfoldable pub validate_cases :
      Dict Bool → Dict Bool → List (CaseInfo E) → Result (OptsError E V) (List RuleGroup)
  validate_cases seen_groups seen_alerts [] = ok []
  validate_cases seen_groups seen_alerts (c ∷ cases) = loaded c.rule_group >>= λ rg.
      validate_group rg seen_groups seen_alerts >>= λ seen_alerts'.
      validate_cases (insert rg.name true seen_groups) seen_alerts' cases >>= λ rgs. ok (rg ∷ rgs)

  -- validateOpts. `has_parser` tells whether AlertMessageParser is set.
  unfoldable pub validate_opts :
      Settings → Bool → List (CaseInfo E) → Result (OptsError E V) (List RuleGroup)
  validate_opts set has_parser cases =
      if set.disable_alerts_api_check
        && (set.disable_rules_api_check
            && (set.disable_alerts_metrics_check && set.disable_alerts_reception_check))
      then err all_checks_disabled
      else if not has_parser
      then err parser_not_set
      else validate_cases [] [] cases

module _ {E : Type 0} where
  -- The loop of NewTestSuite over the cases: the tests by group name and minGroupInterval.
  unfoldable new_cases :
      ℕ → Dict (CaseInfo E) → ℤ → List (CaseInfo E) → Result E (Dict (CaseInfo E) × ℤ)
  new_cases i tests min [] = ok (tests, min)
  new_cases i tests min (c ∷ cases) = c.rule_group >>= λ rg.
      new_cases (i + 1) (insert c.group_name c tests)
        (if i == 0 || int_lt rg.interval min then rg.interval else min) cases
