-- ===== src/AlertGenerator/Tests.antt =====
-- Test data for the alert generator: label sets are numbers, and every alert belongs to one group.
pub mod Alerts
pub mod Servers
pub mod Suites
pub mod Writers
pub mod Answers
pub mod Checks
pub mod Cases
use Prim.Native.Nat.{compare}
use compliance.Base.{
  ℕ, zero, suc, ◌*◌, ◌+◌, String, Bool, true, false, List, [], ◌∷◌, arith, refl, ◌≡◌, ◌↔◌,
}
use compliance.AlertGenerator.Api.{Time, second, AlertApi, ComparesEqual, Alert}
use compliance.AlertGenerator.ExpectedAlert.{ExpectedAlert}
use compliance.AlertGenerator.Server.State.{AlertsServer, no_errs}

abbrev label_text : ℕ → String
label_text zero = "a"
label_text (suc _) = "b"

abbrev pub api : AlertApi ℕ
api = record {
  compare_labels = compare;
  labels_string = label_text;
  get_label = λ l name. "group";
  url_parses = λ url. true;
}

api-ComparesEqual : ComparesEqual api
api-ComparesEqual a b = ground arith

-- An alert as it is sent, with the given labels.
abbrev pub sent : ℕ → Alert ℕ
sent l = record { labels = l; annotations = 0; starts_at = 0; ends_at = 0; generator_url = "" }

-- A firing alert that is due after 100 seconds, without a later state.
abbrev pub firing : ExpectedAlert ℕ
firing = record {
  ordering_id = 1;
  time_tolerance = 15 * second;
  ts = 100 * second;
  next_state = 0;
  resolved = false;
  resend = false;
  resolved_time = 0;
  ends_at_delta = 240 * second;
  alert = sent 0;
}

abbrev pub now : Time
now = 101 * second

abbrev too_late : Time
too_late = 200 * second

abbrev pub server : AlertsServer ℕ
server = record { expected_alerts = ("a", firing ∷ []) ∷ []; errs = []; disabled = false }

-- The server after the alert has come.
abbrev satisfied : AlertsServer ℕ
satisfied = record {
  expected_alerts = ("a", []) ∷ [];
  errs = ("group", no_errs) ∷ [];
  disabled = false;
}
