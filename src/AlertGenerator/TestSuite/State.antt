-- ===== src/AlertGenerator/TestSuite/State.antt =====
-- alert_generator/testsuite.go: the rule groups under test, the errors found, and the rounds of the
-- checking loops. Each round is one step on the state: it reads the tests under the lock and then
-- calls removeGroups. Logging is left out. An `error` is a value of the type `E`, nil is `none`.
use compliance.Base.{
  ℕ, String, Bool, true, not, List, [], ◌∷◌, ◌++◌, Option, none, some, ltb, if◌then◌else◌, is_empty,
  or_nil, Dict, lookup, insert, erase, contains,
}

-- The part of cases.TestCase that the loops use, after Init. `A`, `R` and `M` are what the API
-- answers for a group: its alerts, its rule group and its metrics (none if it is missing).
pub record TestCase (A R M E : Type 0) : Type 0 where
  pub test_until : ℕ
  pub check_alerts : ℕ → Option A → Option E
  pub check_rule_group : ℕ → Option R → Option E
  pub check_metrics : ℕ → Option M → Option E

pub record Settings : Type 0 where
  pub disable_alerts_api_check : Bool
  pub disable_rules_api_check : Bool
  pub disable_alerts_metrics_check : Bool
  pub disable_alerts_reception_check : Bool

pub record TestSuite (C E : Type 0) : Type 0 where
  pub rule_group_tests : Dict C
  pub rule_group_test_errors : Dict (List E)
  pub stopped : Bool

module _ {C E : Type 0} where
  -- The errors on record for a group.
  abbrev pub errors_of : String → TestSuite C E → List E
  errors_of gn ts = or_nil (lookup gn ts.rule_group_test_errors)

  -- The loop body of removeGroups.
  unfoldable pub remove_group : String → Option E → TestSuite C E → TestSuite C E
  remove_group gn err ts = if not (contains gn ts.rule_group_tests) then ts else elim err [
    | none ↦ record ts { rule_group_tests = erase gn ts.rule_group_tests }
    | some e ↦ record ts {
      rule_group_tests = erase gn ts.rule_group_tests;
      rule_group_test_errors = insert gn (errors_of gn ts ++ e ∷ []) ts.rule_group_test_errors;
    }
  ]

  -- removeGroups.
  unfoldable pub remove_groups : Dict (Option E) → TestSuite C E → TestSuite C E
  remove_groups [] ts = ts
  remove_groups ((gn, err) ∷ groups) ts = remove_groups groups (remove_group gn err ts)

  -- isOver.
  unfoldable pub is_over : TestSuite C E → Bool
  is_over ts = is_empty ts.rule_group_tests

  -- Stop: the channel is closed once. (The server and the writer are stopped with it.)
  unfoldable pub stop : TestSuite C E → TestSuite C E
  stop ts = if ts.stopped then ts else record ts { stopped = true }

-- The first loop of monitorAlertReception: the groups that face errors.
unfoldable collect_facing : {E : Type 0} → E → Dict Bool → Dict (Option E) → Dict (Option E)
collect_facing reception [] groups = groups
collect_facing reception ((gn, _) ∷ facing) groups =
    collect_facing reception facing (insert gn (some reception) groups)

module _ {A R M E : Type 0} where
  -- The loop body that checkAlertsLoop, checkRulesLoop and checkMetricsLoop share, for one group:
  -- `check` is the check of the loop and `answer` what the API answered for the group.
  unfoldable pub collect_group :
      {B : Type 0}
      → (TestCase A R M E → ℕ → Option B → Option E)
      → ℕ
      → Option B
      → String
      → TestCase A R M E
      → Dict (Option E)
      → Dict (Option E)
  collect_group check now answer gn c groups =
      if ltb c.test_until now
      then insert gn none groups
      else elim (check c now answer) [ none ↦ groups | some e ↦ insert gn (some e) groups ]

  -- The loop over the rule groups: it collects the groups to remove.
  unfoldable pub collect_groups :
      {B : Type 0}
      → (TestCase A R M E → ℕ → Option B → Option E)
      → ℕ
      → Dict B
      → Dict (TestCase A R M E)
      → Dict (Option E)
      → Dict (Option E)
  collect_groups check now answers [] groups = groups
  collect_groups check now answers ((gn, c) ∷ tests) groups =
      collect_groups check now answers tests
        (collect_group check now (lookup gn answers) gn c groups)

  -- A round of a checking loop. Without an answer (the request or its parsing failed) it ends.
  unfoldable pub check_round :
      {B : Type 0}
      → (TestCase A R M E → ℕ → Option B → Option E)
      → ℕ
      → Option (Dict B)
      → TestSuite (TestCase A R M E) E
      → TestSuite (TestCase A R M E) E
  check_round check now none ts = ts
  check_round check now (some answers) ts =
      remove_groups (collect_groups check now answers ts.rule_group_tests []) ts

  -- A round of checkAlertsLoop.
  unfoldable check_alerts_round :
      ℕ → Option (Dict A) → TestSuite (TestCase A R M E) E → TestSuite (TestCase A R M E) E
  unfolding check_round
  check_alerts_round = check_round (λ c. c.check_alerts)

  -- A round of checkRulesLoop.
  unfoldable check_rules_round :
      ℕ → Option (Dict R) → TestSuite (TestCase A R M E) E → TestSuite (TestCase A R M E) E
  unfolding check_round
  check_rules_round = check_round (λ c. c.check_rule_group)

  -- A round of checkMetricsLoop.
  unfoldable check_metrics_round :
      ℕ → Option (Dict M) → TestSuite (TestCase A R M E) E → TestSuite (TestCase A R M E) E
  unfolding check_round
  check_metrics_round = check_round (λ c. c.check_metrics)

  -- Its second loop: the groups of the tests whose time is over.
  unfoldable collect_ended : ℕ → Dict (TestCase A R M E) → Dict (Option E) → Dict (Option E)
  collect_ended now [] groups = groups
  collect_ended now ((gn, c) ∷ tests) groups =
      collect_ended now tests (if ltb c.test_until now then insert gn none groups else groups)

  -- A round of monitorAlertReception. `reception` is its error, `facing` what the alert server's
  -- groupsFacingErrors returns.
  unfoldable monitor_round :
      E → ℕ → Dict Bool → TestSuite (TestCase A R M E) E → TestSuite (TestCase A R M E) E
  monitor_round reception now facing ts =
      remove_groups (collect_ended now ts.rule_group_tests (collect_facing reception facing [])) ts

  -- TestUntil: the latest end of the groups under test.
  unfoldable pub latest_end : Dict (TestCase A R M E) → ℕ → ℕ
  latest_end [] tu = tu
  latest_end ((gn, c) ∷ tests) tu =
      latest_end tests (if ltb tu c.test_until then c.test_until else tu)

  unfoldable pub test_until_all : TestSuite (TestCase A R M E) E → ℕ
  unfolding latest_end
  test_until_all ts = latest_end ts.rule_group_tests 0
