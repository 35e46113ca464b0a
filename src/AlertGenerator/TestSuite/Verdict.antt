-- ===== src/AlertGenerator/TestSuite/Verdict.antt =====
-- alert_generator/testsuite.go: WasTestSuccessful. The explanation is a list of lines, each a
-- value with what the line prints; the formatting of times and labels is left out.
use compliance.Base.{
  ℕ, ◌+◌, String, Bool, true, false, not, ◌&&◌, ◌||◌, List, [], ◌∷◌, ◌++◌, if◌then◌else◌, is_empty,
  Dict, contains,
}
use compliance.AlertGenerator.Api.{AlertApi}
use compliance.AlertGenerator.ExpectedAlert.{ExpectedAlert}
use compliance.AlertGenerator.Server.State.{
  AlertsServer, AllErrs, UnexpectedErr, MatchingErr, errs_of, groups_facing_errors, group_error,
  expected_alerts_error,
}
use compliance.AlertGenerator.TestSuite.State.{Settings, TestSuite}

pub data Check : Type 0 where
  alerts_api rules_api alerts_metrics alerts_reception : Check

pub data Line (L E : Type 0) : Type 0 where
  still_running all_passed api_failures reception_failures : Line L E
  some_passed : List Check → Line L E
  group_name : String → Line L E
  api_error : ℕ → E → Line L E
  missed_reason mismatch_reason unexpected_reason : Line L E
  missed : ℕ → ExpectedAlert L → Line L E
  mismatch : ℕ → MatchingErr L → Line L E
  unexpected : ℕ → UnexpectedErr L → Line L E
  still_expected : Line L E
  expected : ℕ → ExpectedAlert L → Line L E

-- A numbered line for each element, from `i + 1` on.
unfoldable pub numbered : {X Y : Type 0} → (ℕ → X → Y) → ℕ → List X → List Y
numbered line i [] = []
numbered line i (x ∷ xs) = line (i + 1) x ∷ numbered line (i + 1) xs

-- A reason and its lines, if there are any.
abbrev pub section : {X Y : Type 0} → Y → (ℕ → X → Y) → List X → List Y
section reason line [] = []
section reason line (x ∷ xs) = reason ∷ numbered line 0 (x ∷ xs)

-- The names of the checks that were made, in the order of the text.
unfoldable pub checks_made : Settings → List Check
checks_made set =
    (if set.disable_alerts_api_check then [] else alerts_api ∷ [])
    ++ ((if set.disable_rules_api_check then [] else rules_api ∷ [])
        ++ ((if set.disable_alerts_metrics_check then [] else alerts_metrics ∷ [])
            ++ (if set.disable_alerts_reception_check then [] else alerts_reception ∷ [])))

abbrev any_disabled : Settings → Bool
any_disabled set =
    set.disable_alerts_api_check || set.disable_rules_api_check || set.disable_alerts_metrics_check
    || set.disable_alerts_reception_check

module _ {L E : Type 0} where
  -- The groups that failed the API and metrics check, with their errors.
  unfoldable pub describe_api : Dict (List E) → List (Line L E)
  describe_api [] = []
  describe_api ((gn, errs) ∷ m) = group_name gn ∷ (numbered api_error 0 errs ++ describe_api m)

  abbrev pub describe_errs : AllErrs L → List (Line L E)
  describe_errs errs =
      section missed_reason missed errs.missed_alerts
      ++ (section mismatch_reason mismatch errs.matching_errs
          ++ section unexpected_reason unexpected errs.unexpected_alerts)

  -- The groups that faced alert reception issues.
  unfoldable pub describe_reception : Dict (AllErrs L) → Dict Bool → List (Line L E)
  describe_reception errs [] = []
  describe_reception errs ((gn, _) ∷ facing) =
      group_name gn ∷ (describe_errs (errs_of gn errs) ++ describe_reception errs facing)

  -- The alerts still expected of groups without another reception error.
  unfoldable pub describe_expected :
      AlertApi L → Dict Bool → Dict (List (ExpectedAlert L)) → List (Line L E)
  describe_expected api facing [] = []
  describe_expected api facing ((_, []) ∷ m) = describe_expected api facing m
  describe_expected api facing ((_, ea ∷ eas) ∷ m) =
      let gn = api.get_label ea.alert.labels "rulegroup" in
      let rest = describe_expected api facing m in
      if contains gn facing then rest else group_name gn ∷ (numbered expected 0 (ea ∷ eas) ++ rest)

  abbrev pub headed : Line L E → List (Line L E) → List (Line L E)
  headed title [] = []
  headed title (l ∷ ls) = title ∷ l ∷ ls

module _ {L C E : Type 0} (api : AlertApi L) where
  -- The explanation of a failure.
  unfoldable pub describe_failure : TestSuite C E → AlertsServer L → List (Line L E)
  describe_failure ts s =
      let facing = groups_facing_errors s in
      headed api_failures (describe_api ts.rule_group_test_errors)
      ++ (headed reception_failures (describe_reception (group_error s) facing)
          ++ headed still_expected (describe_expected api facing (expected_alerts_error s)))

  -- The condition under which the test was successful, once it has stopped.
  abbrev pub no_failures : TestSuite C E → AlertsServer L → Bool
  no_failures ts s =
      is_empty ts.rule_group_test_errors
      && (is_empty (groups_facing_errors s) && is_empty (expected_alerts_error s))

  -- WasTestSuccessful.
  unfoldable pub was_test_successful :
      Settings → TestSuite C E → AlertsServer L → Bool × List (Line L E)
  unfolding describe_failure
  was_test_successful set ts s =
      if not ts.stopped
      then (false, still_running ∷ [])
      else if no_failures ts s
      then (true, (if any_disabled set then some_passed (checks_made set) else all_passed) ∷ [])
      else (false, describe_failure ts s)
