-- ===== src/AlertGenerator/TestSuite/Fetching.antt =====
-- alert_generator/testsuite.go: the rounds of the checking loops with the request and the parsing in
-- front. An error of either ends the round; it is logged and otherwise ignored.
use compliance.Base.{
  true, false, if◌then◌else◌, ℤ, ℕ, ◌≡◌, ◌++◌, ap, ◌∙◌, [], String, Bool, Option, none, some, List,
  Result, ok, err, ◌>>=◌, or_nil, lookup, UniqueKeys,
}
use compliance.AlertGenerator.Api.{AlertApi}
use compliance.AlertGenerator.Config.{AuthConfig}
use compliance.AlertGenerator.Cases.Checks.{ApiAlert, Sample}
use compliance.AlertGenerator.Cases.Rules.{RuleGroup}
use compliance.AlertGenerator.Responses.{
  HttpApi, ResponseError, bad_assertion, do_get_request, Answer, rulegroup, group_items,
  parse_and_group_alerts, AnsweredGroup, parse_and_group_rules, Vector, parse_and_group_metrics,
}
use compliance.AlertGenerator.Responses.Grouping.{of_group, group_items-lookup}
use compliance.AlertGenerator.Responses.Parsing.{parse_and_group_alerts-success}
use compliance.AlertGenerator.TestSuite.State.{TestCase, TestSuite, errors_of, check_round}
use compliance.AlertGenerator.TestSuite.Rounds.{test_left, errors_found, check_round-decides}

-- `if err != nil { return }`.
abbrev answer_of : {E X : Type 0} → Result E X → Option X
answer_of (ok x) = some x
answer_of (err _) = none

-- The answer ends the suite in a panic.
abbrev panics : {D X : Type 0} → Result (ResponseError D) X → Bool
panics (err bad_assertion) = true
panics _ = false

module _ {B D Q T : Type 0} (http : HttpApi B D Q T) (url : String) (sigv4 : Bool)
    (auth : AuthConfig) where
  -- The body of checkAlertsLoop.
  unfoldable pub check_alerts_loop_body :
      {L R M E : Type 0}
      → AlertApi L
      → (B → Result D (Answer (ApiAlert L)))
      → ℕ
      → TestSuite (TestCase (List (ApiAlert L)) R M E) E
      → TestSuite (TestCase (List (ApiAlert L)) R M E) E
  unfolding check_round do_get_request parse_and_group_alerts
  check_alerts_loop_body api decode now ts =
      check_round (λ c. c.check_alerts) now
        (answer_of
          (do_get_request http url sigv4 auth >>= (λ b. parse_and_group_alerts api decode b)))
        ts

  -- The body of checkRulesLoop.
  unfoldable check_rules_loop_body :
      {L F A M E : Type 0}
      → (B → Result D (Answer (AnsweredGroup L F)))
      → ℕ
      → TestSuite (TestCase A (RuleGroup L F) M E) E
      → TestSuite (TestCase A (RuleGroup L F) M E) E
  unfolding check_round do_get_request parse_and_group_rules
  check_rules_loop_body decode now ts =
      check_round (λ c. c.check_rule_group) now
        (answer_of (do_get_request http url sigv4 auth >>= (λ b. parse_and_group_rules decode b)))
        ts

  -- The body of checkMetricsLoop; `url` is the one with the query and the time of the round. `none`
  -- is a panic of ParseAndGroupMetrics.
  unfoldable check_metrics_loop_body :
      {L F A R E : Type 0}
      → (F → ℤ)
      → (String → Result D F)
      → AlertApi L
      → (B → Result D (Answer (Vector L F)))
      → ℕ
      → TestSuite (TestCase A R (List (Sample L F)) E) E
      → Option (TestSuite (TestCase A R (List (Sample L F)) E) E)
  unfolding check_round do_get_request parse_and_group_metrics
  check_metrics_loop_body to_int64 parse_float api decode now ts =
      let answer =
        do_get_request http url sigv4 auth
        >>= (λ b. parse_and_group_metrics to_int64 parse_float api decode b) in
      if panics answer
      then none
      else some (check_round (λ c. c.check_metrics) now (answer_of answer) ts)

  -- A pass of checkAlertsLoop whose request succeeds and whose answer can be parsed decides a group
  -- under test by `check`, its CheckAlerts on a slice of alerts, nil if there are none: it is run on
  -- exactly the alerts of the answer with the group's name as label "rulegroup", in their order. A
  -- group whose time is over ends without an error, one whose check fails ends with that error at the
  -- end of its record, and any other one stays as it is.
  pub check_alerts_loop_body-decides :
      {L R M E : Type 0} (api : AlertApi L) (decode : B → Result D (Answer (ApiAlert L))) (now : ℕ)
      (ts : TestSuite (TestCase (List (ApiAlert L)) R M E) E) (j : String)
      (c : TestCase (List (ApiAlert L)) R M E) (check : List (ApiAlert L) → Option E) {b : B}
      {res : Answer (ApiAlert L)}
      → UniqueKeys ts.rule_group_tests
      → lookup j ts.rule_group_tests ≡ some c
      → ((alerts : Option (List (ApiAlert L))) → c.check_alerts now alerts ≡ check (or_nil alerts))
      → do_get_request http url sigv4 auth ≡ ok b
      → decode b ≡ ok res
      → res.status ≡ "success"
      → let ts' = check_alerts_loop_body api decode now ts in
        let outcome = check (of_group (λ al. rulegroup api al.labels) j res.items) in
        (lookup j ts'.rule_group_tests ≡ test_left (λ d. d.check_alerts) now c outcome)
        × (errors_of j ts' ≡ errors_of j ts ++ errors_found (λ d. d.check_alerts) now c outcome)
  unfolding check_alerts_loop_body lookup
  check_alerts_loop_body-decides {L} api decode now ts j c check {b} {res} u h slice got decoded
        success =
      let name : ApiAlert L → String = λ al. rulegroup api al.labels in
      let m = group_items name res.items [] in
      let checked : c.check_alerts now (lookup j m) ≡ check (of_group name j res.items) =
        slice (lookup j m) ∙ ap check (group_items-lookup name j res.items []) in
      rw (got, parse_and_group_alerts-success api decode b decoded success, ← checked)
        (check_round-decides (λ d. d.check_alerts) now m ts j c u h)
