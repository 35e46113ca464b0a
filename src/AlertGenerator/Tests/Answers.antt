-- ===== src/AlertGenerator/Tests/Answers.antt =====
-- Answers of the API, and errors of the suite. A body is its own decoded form; label sets are numbers and
-- the label "rulegroup" is "a" for 0 and "b" for the others.
use mathlib.Core.List.{Perm}
use compliance.Base.{
  UniqueKeys, contains, str_eq, ◌↔◌, ◌⊎◌, ◌++◌, Option, some, Bool, false, ℕ, zero, suc, ◌≡◌, refl,
  String, true, List, [], ◌∷◌, none, Result, ok, or_nil, lookup,
}
use compliance.AlertGenerator.Api.{AlertApi}
use compliance.AlertGenerator.Config.{AuthConfig}
use compliance.AlertGenerator.MultiError.{
  GoError, external, wrapped, add, err_of, ServerErrors, suite_error, add-err_of, suite_error_nil,
}
use compliance.AlertGenerator.RemoteWrite.{Writer, running, read}
use compliance.AlertGenerator.TestSuite.State.{TestCase, TestSuite, errors_of}
use compliance.AlertGenerator.TestSuite.Rounds.{test_left, errors_found}
use compliance.AlertGenerator.TestSuite.Fetching.{
  check_alerts_loop_body, check_alerts_loop_body-decides,
}
use compliance.AlertGenerator.Cases.Checks.{ApiAlert}
use compliance.AlertGenerator.Responses.{
  HttpApi, do_get_request, Answer, rulegroup, group_items, number, text, Vector,
}
use compliance.AlertGenerator.Responses.Grouping.{of_group, ungroup, group_items-ungroup}
use compliance.AlertGenerator.Tests.{api}

abbrev name_of : ℕ → String
name_of zero = "a"
name_of (suc _) = "b"

abbrev grouped_api : AlertApi ℕ
grouped_api = record {
  compare_labels = AlertApi.compare_labels api;
  labels_string = name_of;
  get_label = λ l name. name_of l;
  url_parses = λ url. true;
}

abbrev alert : ℕ → ApiAlert ℕ
alert l = record { labels = l; annotations = 0; state = "firing"; active_at = none; value = "1" }

abbrev alerts_body : Answer (ApiAlert ℕ)
alerts_body = record { status = "success"; items = alert 0 ∷ alert 1 ∷ alert 0 ∷ [] }

abbrev decode_alerts : Answer (ApiAlert ℕ) → Result ℕ (Answer (ApiAlert ℕ))
decode_alerts b = ok b

group_items-ungroup_example :
    Perm (ungroup (group_items name_of (0 ∷ 1 ∷ 0 ∷ []) [])) (0 ∷ 1 ∷ 0 ∷ [])
group_items-ungroup_example = group_items-ungroup name_of (0 ∷ 1 ∷ 0 ∷ [])

abbrev parse_float : String → Result ℕ ℕ
parse_float s = ok 1

abbrev metrics_body : Answer (Vector ℕ ℕ)
metrics_body = record {
  status = "success";
  items = record { metric = 0; timestamp = number 5; value = text "1" } ∷ [];
}

abbrev decode_metrics : Answer (Vector ℕ ℕ) → Result ℕ (Answer (Vector ℕ ℕ))
decode_metrics b = ok b

abbrev http : HttpApi (Answer (ApiAlert ℕ)) ℕ String ℕ
http = record {
  new_request = λ u. ok u;
  set_basic_auth = λ u user pass. u;
  default_transport = 0;
  sigv4_round_tripper = λ t. ok t;
  do_request = λ t q. ok (record { status_code = 200; body = ok alerts_body });
}

abbrev no_auth : AuthConfig
no_auth = record { basic_auth_user = ""; basic_auth_pass = "" }

got_alerts : do_get_request http "/api/v1/alerts" false no_auth ≡ ok alerts_body
unfolding do_get_request
got_alerts = refl

abbrev some_alert : List (ApiAlert ℕ) → Option String
some_alert [] = some "no alert"
some_alert (_ ∷ _) = none

abbrev case : TestCase (List (ApiAlert ℕ)) ℕ ℕ String
case = record {
  test_until = 10;
  check_alerts = λ now alerts. some_alert (or_nil alerts);
  check_rule_group = λ now rg. none;
  check_metrics = λ now samples. none;
}

abbrev suite : TestSuite (TestCase (List (ApiAlert ℕ)) ℕ ℕ String) String
suite = record {
  rule_group_tests = ("b", case) ∷ ("c", case) ∷ [];
  rule_group_test_errors = [];
  stopped = false;
}

suite_keys : UniqueKeys suite.rule_group_tests
unfolding contains
suite_keys = (refl, (refl, tt))

suite_c : lookup "c" suite.rule_group_tests ≡ some case
unfolding lookup
suite_c = refl

check_alerts_loop_body-decides_example :
    let ts' =
      check_alerts_loop_body http "/api/v1/alerts" false no_auth grouped_api decode_alerts 5
        suite in
    let outcome =
      some_alert
        (of_group (λ (al : ApiAlert ℕ). rulegroup grouped_api al.labels) "c" alerts_body.items) in
    (lookup "c" ts'.rule_group_tests
      ≡ test_left (λ (d : TestCase (List (ApiAlert ℕ)) ℕ ℕ String). d.check_alerts) 5 case outcome)
    × (errors_of "c" ts'
        ≡ errors_of "c" suite
          ++ errors_found
              (λ (d : TestCase (List (ApiAlert ℕ)) ℕ ℕ String). d.check_alerts)
              5
              case
              outcome)
check_alerts_loop_body-decides_example =
    check_alerts_loop_body-decides http "/api/v1/alerts" false no_auth grouped_api decode_alerts 5
      suite "c" case some_alert suite_keys suite_c (λ alerts. refl) got_alerts refl refl

abbrev two_errors : List (GoError String)
two_errors = external "one" ∷ wrapped "http server" (external "two") ∷ []

add-err_of_example :
    add (err_of two_errors ∷ []) (external "zero" ∷ []) ≡ external "zero" ∷ [] ++ two_errors
add-err_of_example = add-err_of two_errors (external "zero" ∷ [])

abbrev writer : Writer ℕ ℕ ℕ (GoError String)
writer = record {
  pending = [];
  batches = [];
  times_written = 1;
  phase = running;
  errc = none;
  error = none;
  world = 3;
}

abbrev closed : GoError String → Bool
closed (external s) = str_eq s "closed"
closed _ = false

abbrev server_errors : ServerErrors String
server_errors = record { server_err = some (external "closed"); server_close_err = none }

suite_error_nil_example : (suite_error closed writer server_errors ≡ none) ↔ (
    ((read writer).error ≡ none)
    × ((server_errors.server_err ≡ none)
        ⊎ ((e : GoError String) × (server_errors.server_err ≡ some e) × (closed e ≡ true)))
    × (server_errors.server_close_err ≡ none))
suite_error_nil_example = suite_error_nil closed writer server_errors
