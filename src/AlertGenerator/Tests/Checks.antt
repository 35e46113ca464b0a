-- ===== src/AlertGenerator/Tests/Checks.antt =====
-- Runs of the test cases and of the configuration (alert_generator/cases/, alert_generator/config/).
use Prim.Native.Nat.{compare}
use compliance.Base.{
  ℕ, ℤ, pos, ◌*◌, ◌==◌, ◌≡◌, ◌↔◌, refl, String, List, [], ◌∷◌, Option, none, some, In, arith,
  length, ok, err, sort_slice,
}
use compliance.AlertGenerator.Api.{second}
use compliance.AlertGenerator.Config.{AuthConfig, Config, validate_config, port_too_large}
use compliance.AlertGenerator.Config.Usable.{IsUsable, HasPort, PortFits, validate_config_iff}
use compliance.AlertGenerator.Cases.Checks.{
  ApiAlert, CheckApi, different_number, are_alerts_equal, check_expected_alerts,
}
use compliance.AlertGenerator.Cases.Checks.Agreement.{AlertsAgree, check_expected_alerts_iff}
use compliance.AlertGenerator.Cases.Rules.{
  AlertingRule, alerting, RuleGroup, check_expected_rule_group,
}
use compliance.AlertGenerator.Cases.Rules.RulesAgree.{
  GroupAgrees, check_expected_rule_group-GroupAgrees,
}
use compliance.AlertGenerator.Cases.Samples.{Notation, absolute, repeated}

abbrev pub checks : CheckApi ℕ ℕ
checks = record {
  compare_labels = compare;
  float_eq = λ a b. a == b;
  parse_float = λ s. some 1;
  parse_expr = λ s. some s;
  in_seconds = λ n. n * second;
}

abbrev pending_alert : ApiAlert ℕ
pending_alert = record {
  labels = 1;
  annotations = 2;
  state = "pending";
  active_at = some (100 * second);
  value = "11";
}

nothing_differs :
    are_alerts_equal checks (30 * second) (pending_alert ∷ []) [] ≡ some different_number
unfolding are_alerts_equal
nothing_differs = refl

itself_agrees :
    are_alerts_equal checks (30 * second) (pending_alert ∷ []) (pending_alert ∷ []) ≡ none
unfolding are_alerts_equal sort_slice
itself_agrees = refl

check_expected_alerts_iff_example :
    (check_expected_alerts checks
        ([] ∷ (pending_alert ∷ []) ∷ [])
        (pending_alert ∷ [])
        (30 * second)
      ≡ none)
    ↔ ((exp : List (ApiAlert ℕ)) × In exp ([] ∷ (pending_alert ∷ []) ∷ [])
        × AlertsAgree checks (30 * second) (pending_alert ∷ []) exp)
check_expected_alerts_iff_example =
    check_expected_alerts_iff checks ([] ∷ (pending_alert ∷ []) ∷ []) (pending_alert ∷ [])
      (30 * second)
      (
        (λ err e. ground (arith, e, nothing_differs)),
        ((λ err e. ground (arith, e, itself_agrees)), tt),
      )

abbrev a_rule : AlertingRule ℕ ℕ
a_rule = record {
  state = "pending";
  name = "A";
  query = "q";
  duration = 360;
  labels = 3;
  annotations = 4;
  alerts = pending_alert ∷ [];
  health = "ok";
  last_error = "";
  last_evaluation = 110 * second;
  type = "alerting";
}

abbrev a_group : RuleGroup ℕ ℕ
a_group = record {
  name = "G";
  file = "rules.yaml";
  interval = 30;
  evaluation_time = 0;
  last_evaluation = 110 * second;
  rules = alerting a_rule ∷ [];
}

check_expected_rule_group-GroupAgrees_example :
    (exp : RuleGroup ℕ ℕ) × In exp (a_group ∷ []) × GroupAgrees checks (120 * second) a_group exp
unfolding check_expected_rule_group sort_slice
check_expected_rule_group-GroupAgrees_example =
    check_expected_rule_group-GroupAgrees checks (120 * second) (a_group ∷ []) a_group refl

abbrev notations : List (Notation ℕ)
notations = absolute 3 ∷ repeated 2 4 ∷ []

-- Label sets that only count their strings.
abbrev counted : List String → ℕ
counted = length

abbrev no_auth : AuthConfig
no_auth = record { basic_auth_user = ""; basic_auth_pass = "" }

abbrev config : Config
config = record {
  remote_write_url = "w";
  query_base_url = "q";
  rules_and_alerts_api_base_url = "r";
  alert_reception_server_port = "";
  auth = record { remote_write = no_auth; rules_and_alerts_api = no_auth; query = no_auth };
}

abbrev atoi : String → Option ℤ
atoi s = some (pos 8080)

abbrev on_8080 : Config
on_8080 = record config { alert_reception_server_port = "8080" }

validate_config_iff_example :
    ((validate_config atoi config ≡ ok on_8080)
      ↔ (IsUsable config × HasPort config on_8080 × PortFits atoi on_8080))
    × (validate_config atoi config ≡ ok on_8080 → validate_config atoi on_8080 ≡ ok on_8080)
validate_config_iff_example = validate_config_iff atoi config on_8080

port_added : validate_config atoi config ≡ ok on_8080
unfolding validate_config
port_added = refl

-- The port 65536 is refused.
port_refused : validate_config (λ s. some (pos 65536)) config ≡ err port_too_large
unfolding validate_config
port_refused = refl
