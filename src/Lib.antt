-- ===== src/Lib.antt =====
-- A verification library for the compliance test programs of this repository: the alert generator
-- suite (alert_generator/) and the PromQL tester (promql/).
--
-- The alert generator suite writes samples to a database with alerting rules, receives the alerts
-- that it sends, asks its API for alerts, rules and metrics, and judges whether they are those that
-- the test cases expect. The PromQL tester expands query patterns into test cases, sends each to a
-- reference and a test API, compares the answers and counts the results.
--
-- Parts and files:
-- - AlertGenerator/Api: labels, alerts and instants, and the interface of label operations.
-- - AlertGenerator/ExpectedAlert: alert_generator/cases/expected_alert.go. matches is Matches,
--   can_be_ignored and should_be_ignored are CanBeIgnored and ShouldBeIgnored.
-- - AlertGenerator/Server: alert_generator/server.go. State holds alertsServer with getErr,
--   addExpectedAlerts, addMissedAlerts, groupError, groupsFacingErrors and expectedAlertsError;
--   Sweep holds getPossibleAlert and missedAlertCleanup; Handler holds ServeHTTP: serve_alerts is
--   its loop over the alerts, finish what follows the loop, serve_http the whole handler. The other
--   children hold the theorems.
-- - AlertGenerator/TestSuite: alert_generator/testsuite.go. Options holds validateOpts and the loop
--   of NewTestSuite; Starting holds the loop of Start; State holds TestSuite, removeGroups, isOver, Stop, TestUntil and the rounds of
--   the four checking loops; Verdict holds WasTestSuccessful; Interleavings takes the goroutines as
--   sequences of calls of removeGroups and Stop.
-- - AlertGenerator/Cases: alert_generator/cases/utils.go (Checks holds checkExpectedAlerts and
--   checkExpectedSamples, Rules checkExpectedRuleGroup, Samples sampleSlice and betweenFunc) and the
--   four cases: PendingFiring is case_pending_firing_resolved.go, PendingResolved is
--   case_pending_resolved_and_always_inactive.go, ZeroFor is case_zero_for_and_small_for.go and
--   NewAlerts is case_new_alerts_and_order_check.go. Each holds SamplesToRemoteWrite, TestUntil,
--   allPossibleStates, expAlerts, expRuleGroups and expMetrics, its child Sending ExpectedAlerts, its
--   child Checking CheckAlerts, CheckRuleGroup and CheckMetrics. Common holds what they repeat, the
--   loops of ExpectedAlerts above all; Together what holds of all of them. evaluate of
--   Common/Timeline describes the side of a generator, what a rule `> 10` makes of the samples, and
--   the children Timeline and Passing set it beside the case; their `reported` is what an API answers.
-- - AlertGenerator/Config: validateConfig of alert_generator/config/config.go.
-- - AlertGenerator/RemoteWrite: alert_generator/remote_write.go. add_time_series is AddTimeSeries,
--   all_samples the flattening and sorting of Start; step is a turn of the goroutine of Start or a
--   call of Error, run any sequence of them; await is the loop in which Start waits for the first
--   write; remote_write is remoteWrite.
-- - AlertGenerator/Responses: alert_generator/utils.go (DoGetRequest, ParseAndGroupAlerts,
--   ParseAndGroupRules, ParseAndGroupMetrics) and alert_message_parsers.go. MultiError holds
--   multiError of utils.go with runningError of server.go and Error of testsuite.go.
--   TestSuite/Fetching puts the request and the parsing in front of the rounds.
-- - PromQl/Time and PromQl/Config: time.Time, time.Duration and promql/config/config.go.
-- - PromQl/TestCases: promql/testcases/expand.go (tprintf, getVariants, applyQueryTweaks,
--   ExpandTestCases).
-- - PromQl/Comparer: promql/comparer/comparer.go (New, Compare, Success).
-- - PromQl/Output: the counts of promql/output/text.go, tsv.go and html.go.
-- - AlertGenerator/Tests and PromQl/Tests: runs on concrete data.
-- - Base: Boolean tests, lists, maps as association lists, sorting, and results with errors.
--
-- The suite gives the samples of the test cases to the remote writer, takes the groups of the parsed
-- answers for its checks, and uses the server's groupsFacingErrors, groupError and expectedAlertsError for
-- its verdict; the server uses Matches, CanBeIgnored and ShouldBeIgnored; the comparer takes the test
-- cases that the expansion makes, and the outputs take the comparer's results.
--
-- Conventions: a state is a record and an operation returns the new state. A Go map is an
-- association list, whose order stands for the order of `range`, which Go leaves open. An instant is
-- a natural number of nanoseconds since Go's zero time, so that time.Time{} is 0; instants before it
-- and the overflow of 64-bit durations are outside the model. A panic is an outcome of its own.
-- sort.Slice keeps the order of equal elements, which Go leaves open. Loops over lists are structural
-- recursion. getVariants runs on fuel, the number of arguments of the pattern: each call takes one
-- argument away, so this is enough. The loops of ExpectedAlerts run on fuel too, the instant at which
-- they end: each step is a minute, so this is enough.
--
-- Code of other packages is a parameter: the operations on labels, url.Parse, RuleNode.Validate, the
-- HTTP client, JSON decoding, the remote write client, protobuf and snappy, the message decoders, the
-- parsing of floats and of PromQL expressions, strconv.Atoi, text/template, cmp.Diff, the order of
-- model.Matrix and strings.ToLower.
--
-- Not modelled: mutexes (each operation of the alert server is taken as one critical section, also
-- missedAlertCleanup, which takes no lock), HTTP and timers, logging, printing, the reading of
-- configurations, the rules that a case asks to be loaded (RuleGroup), and the programs under
-- promqle2e/, remotewrite/ and cmd/, which are input and output. In the remote writer the clock is
-- left out: a turn may come at any time.
pub mod Base
pub mod AlertGenerator
pub mod PromQl
