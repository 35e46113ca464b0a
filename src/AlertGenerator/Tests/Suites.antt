-- ===== src/AlertGenerator/Tests/Suites.antt =====
-- Runs of the test suite (alert_generator/testsuite.go).
use compliance.Base.{
  pos, ◌⊎◌, ℕ, ◌≡◌, ◌↔◌, inl, refl, String, true, false, ◌&&◌, none, some, arith, Option, List, In,
  here, [], ◌∷◌, ◌++◌, All, Dict, lookup, contains, UniqueKeys, Distinct, ok, length,
}
use compliance.AlertGenerator.ExpectedAlert.{ExpectedAlert, matches}
use compliance.AlertGenerator.Server.State.{groups_facing_errors, expected_alerts_error}
use compliance.AlertGenerator.Server.Conservation.{all_alerts}
use compliance.AlertGenerator.Server.Errors.{KeepsErrors-refl}
use compliance.AlertGenerator.TestSuite.State.{
  TestCase, Settings, TestSuite, errors_of, remove_groups, is_over, check_round, test_until_all,
}
use compliance.AlertGenerator.TestSuite.Rounds.{
  test_left, errors_found, check_round-decides, check_round-is_over,
}
use compliance.AlertGenerator.TestSuite.Interleavings.{
  start, next, removes, IsConsistent, Reach-IsConsistent, Reach-final,
}
use compliance.AlertGenerator.TestSuite.Verdict.{group_name, was_test_successful}
use compliance.AlertGenerator.TestSuite.Judgement.{
  IsClean, AreResends, was_test_successful_iff, success_vouches,
}
use compliance.AlertGenerator.TestSuite.Explanation.{was_test_successful-names}
use compliance.AlertGenerator.TestSuite.Options.{
  Rule, RuleGroup, CaseInfo, validate_group, validate_cases, validate_opts,
}
use compliance.AlertGenerator.TestSuite.Validation.{
  AreLoaded, IsValidGroup, group_names, all_alert_names, validate_opts-guarantees,
}
use mathlib.Core.List.{Perm}
use compliance.AlertGenerator.Server.Filing.{stored, IsWellStored}
use compliance.AlertGenerator.Cases.PendingFiring.Sending as FiringSending
use compliance.AlertGenerator.Cases.NewAlerts.Sending as NewSending
use compliance.AlertGenerator.TestSuite.Starting.{
  Startable, start_cases, all_with_text, start_cases-stores,
}
use compliance.AlertGenerator.Tests.{api, sent, now, server, satisfied}
use compliance.AlertGenerator.Tests.Servers.{receive_run}

-- A check that fails when the API does not know the group.
abbrev missing : ℕ → Option ℕ → Option String
missing _ none = some "missing"
missing _ (some _) = none

abbrev case : TestCase ℕ ℕ ℕ String
case = record {
  test_until = 10;
  check_alerts = missing;
  check_rule_group = missing;
  check_metrics = missing;
}

abbrev alerts_check : TestCase ℕ ℕ ℕ String → ℕ → Option ℕ → Option String
alerts_check c = c.check_alerts

abbrev suite : TestSuite (TestCase ℕ ℕ ℕ String) String
suite = record {
  rule_group_tests = ("g", case) ∷ ("h", case) ∷ [];
  rule_group_test_errors = [];
  stopped = false;
}

abbrev finished : TestSuite (TestCase ℕ ℕ ℕ String) String
finished = record { rule_group_tests = []; rule_group_test_errors = []; stopped = true }

abbrev all_enabled : Settings
all_enabled = record {
  disable_alerts_api_check = false;
  disable_rules_api_check = false;
  disable_alerts_metrics_check = false;
  disable_alerts_reception_check = false;
}

abbrev g_fails : Dict (Option String)
g_fails = ("g", some "missing") ∷ []

abbrev g_answers : Dict ℕ
g_answers = ("g", 1) ∷ []

suite-UniqueKeys : UniqueKeys suite.rule_group_tests
unfolding contains
suite-UniqueKeys = (refl, (refl, tt))

suite-IsConsistent : IsConsistent suite
unfolding lookup
suite-IsConsistent = record {
  unique = suite-UniqueKeys;
  clean = λ gn c. refl;
  at_most_one = λ gn. omega arith;
}

check_round-decides_example :
    let ts' = check_round alerts_check 5 (some g_answers) suite in
    let outcome = alerts_check case 5 (lookup "h" g_answers) in
    (lookup "h" ts'.rule_group_tests ≡ test_left alerts_check 5 case outcome)
    × (errors_of "h" ts' ≡ errors_of "h" suite ++ errors_found alerts_check 5 case outcome)
unfolding lookup
check_round-decides_example =
    check_round-decides alerts_check 5 g_answers suite "h" case suite-UniqueKeys refl

check_round-is_over_example : is_over (check_round alerts_check 11 (some g_answers) suite) ≡ true
unfolding test_until_all
check_round-is_over_example =
    check_round-is_over alerts_check 11 g_answers suite suite-UniqueKeys (omega arith)

Reach-IsConsistent_example : IsConsistent (remove_groups g_fails suite)
Reach-IsConsistent_example = Reach-IsConsistent suite-IsConsistent (next start (removes g_fails))

Reach-final_example :
    (errors_of "k" (remove_groups g_fails suite) ≡ errors_of "k" suite)
    × (contains "k" (remove_groups g_fails suite).rule_group_tests ≡ false)
unfolding contains
Reach-final_example = Reach-final "k" refl (next start (removes g_fails))

was_test_successful_iff_example :
    ((was_test_successful api all_enabled finished satisfied).0 ≡ true) ↔ (
      (finished.stopped ≡ true)
      × (finished.rule_group_test_errors ≡ [])
      × ((satisfied.disabled ≡ true)
          ⊎ (All (λ x. IsClean x.1) satisfied.errs
              × All (λ x. AreResends x.1) satisfied.expected_alerts)))
was_test_successful_iff_example = was_test_successful_iff api all_enabled finished satisfied

success_vouches_example :
    (ea : ExpectedAlert ℕ) × In ea (all_alerts server.expected_alerts)
    × (matches api ea now (sent 0) ≡ none)
unfolding was_test_successful groups_facing_errors expected_alerts_error
success_vouches_example =
    success_vouches api all_enabled finished satisfied server satisfied now (sent 0 ∷ []) refl refl
      receive_run (KeepsErrors-refl satisfied.errs) here

abbrev failed : TestSuite (TestCase ℕ ℕ ℕ String) String
failed = record {
  rule_group_tests = [];
  rule_group_test_errors = ("g", "missing" ∷ []) ∷ [];
  stopped = true;
}

was_test_successful-names_example :
    let (verdict, describe) = was_test_successful api all_enabled failed satisfied in
    (verdict ≡ false) × In (group_name "g") describe
unfolding contains
was_test_successful-names_example =
    was_test_successful-names api all_enabled failed satisfied "g" refl (inl refl)

abbrev rule : Rule
rule = record { alert = "A"; labels = ("rulegroup", "g") ∷ [] }

abbrev group : RuleGroup
group = record { name = "g"; interval = pos 30; rules = rule ∷ [] }

abbrev info : CaseInfo String
info = record { group_name = "g"; rule_group = ok group }

abbrev valid : Rule → List String
valid r = []

validate_opts-guarantees_example :
    (all_enabled.disable_alerts_api_check
        && (all_enabled.disable_rules_api_check
            && (all_enabled.disable_alerts_metrics_check
                && all_enabled.disable_alerts_reception_check))
      ≡ false)
    × (true ≡ true)
    × AreLoaded valid (info ∷ []) (group ∷ [])
    × All (IsValidGroup valid) (group ∷ [])
    × Distinct (group_names (group ∷ []))
    × Distinct (all_alert_names (group ∷ []))
unfolding validate_opts validate_cases validate_group contains lookup
validate_opts-guarantees_example =
    validate_opts-guarantees valid all_enabled true (info ∷ []) (group ∷ []) refl

-- Two of the test cases, with label sets that only count their strings.
abbrev started_cases : List (Startable api)
started_cases = FiringSending.expected_alerts length ∷ NewSending.expected_alerts length ∷ []

start_cases-stores_example :
    IsWellStored api (start_cases api 1000 started_cases [])
    × ((id : String)
        → Perm
            (stored id (start_cases api 1000 started_cases []))
            (all_with_text api id 1000 started_cases))
start_cases-stores_example = start_cases-stores api 1000 started_cases
