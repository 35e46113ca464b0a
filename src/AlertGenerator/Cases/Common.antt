-- ===== src/AlertGenerator/Cases/Common.antt =====
-- alert_generator/cases: what the four cases share. Each has the same intervals and repeats the
-- loops of ExpectedAlerts. Instants of the loops are milliseconds after the start of the case.
pub mod Numbering
pub mod Timeline
pub mod Checking
pub mod Passing
pub mod Groups
use compliance.Base.{
  ℕ, zero, suc, ◌+◌, ◌*◌, ltb, Bool, true, false, not, List, [], ◌∷◌, ◌++◌, if◌then◌else◌, ◌==◌,
}
use compliance.AlertGenerator.Api.{Time, Duration, second}
use compliance.AlertGenerator.ExpectedAlert.{ExpectedAlert, resend_delay}

-- rwInterval and groupInterval in seconds.
abbrev pub rw_interval : ℕ
rw_interval = 15

abbrev pub group_interval : ℕ
group_interval = 30

-- The Unix epoch, and timestamp.Time of milliseconds after it.
abbrev unix_epoch : Time
unix_epoch = 62135596800 * second

abbrev pub from_millis : ℕ → Time
from_millis ms = unix_epoch + ms * 1000000

-- `append` under a condition.
abbrev pub when : {X : Type 0} → Bool → X → List X
when true x = x ∷ []
when false x = []

-- The instant of a sample.
abbrev pub nth : ℕ → ℕ
nth n = n * (1000 * rw_interval)

abbrev resend_delay_ms : ℕ
resend_delay_ms = 60000

abbrev pub group_tolerance : Duration
group_tolerance = group_interval * second

-- The first resolved alert has twice the tolerance.
abbrev pub resolved_tolerance : ℕ → ℕ → Duration
resolved_tolerance first ts = if ts == first then 2 * group_tolerance else group_tolerance

module _ {L : Type 0} (zero_time : ℕ) (labels annotations : L) where
  -- The alert of a loop: `starts` is the instant at which it begins to fire, `ends` the one at
  -- which it is resolved. A field that is not set is zero.
  abbrev pub expected : Duration → Bool → Bool → Time → ℕ → ℕ → ℕ → ExpectedAlert L
  expected tolerance resolved resend next_state starts ends ts = record {
    ordering_id = 0;
    time_tolerance = tolerance;
    ts = from_millis (zero_time + ts);
    next_state = next_state;
    resolved = resolved;
    resend = resend;
    resolved_time = from_millis (zero_time + ends);
    ends_at_delta = 4 * resend_delay;
    alert = record {
      labels = labels;
      annotations = annotations;
      starts_at = from_millis (zero_time + starts);
      ends_at = 0;
      generator_url = "";
    };
  }

  abbrev pub firing_alert : ℕ → ℕ → ℕ → ExpectedAlert L
  firing_alert starts ends ts =
      expected group_tolerance false (not (ts == starts)) (from_millis (zero_time + ends)) starts
        ends ts

  abbrev pub resolved_alert : Time → ℕ → ℕ → ℕ → ExpectedAlert L
  resolved_alert next_state starts ends ts =
      expected (resolved_tolerance ends ts) true (not (ts == ends)) next_state starts ends ts

-- `for ts := ts; ts < until; ts += resendDelayMs`, on fuel.
unfoldable pub instants : ℕ → ℕ → ℕ → List ℕ
instants zero ts until = []
instants (suc fuel) ts until = elim (ltb ts until) [
  | true ↦ ts ∷ instants fuel (ts + resend_delay_ms) until
  | false ↦ []
]

-- A loop makes at most `until` steps.
abbrev pub loop : ℕ → ℕ → List ℕ
loop from until = instants until from until

-- `orderingID` and `exp`.
pub record Expectations (L : Type 0) : Type 0 where
  pub ordering_id : ℕ
  pub exp : List (ExpectedAlert L)

module _ {L : Type 0} where
  -- addAlert.
  unfoldable add_alert : ExpectedAlert L → Expectations L → Expectations L
  add_alert ea st = record {
    ordering_id = st.ordering_id + 1;
    exp = st.exp ++ record ea { ordering_id = st.ordering_id + 1 } ∷ [];
  }

  -- A loop that adds an alert for each instant.
  unfoldable pub add_alerts : (ℕ → ExpectedAlert L) → List ℕ → Expectations L → Expectations L
  unfolding add_alert
  add_alerts make [] st = st
  add_alerts make (ts ∷ rest) st = add_alerts make rest (add_alert (make ts) st)

  -- A loop that adds two alerts for each instant.
  unfoldable pub add_both :
      (ℕ → ExpectedAlert L) → (ℕ → ExpectedAlert L) → List ℕ → Expectations L → Expectations L
  unfolding add_alert
  add_both make also [] st = st
  add_both make also (ts ∷ rest) st =
      add_both make also rest (add_alert (also ts) (add_alert (make ts) st))
