-- ===== src/AlertGenerator/Cases/PendingResolved.antt =====
-- alert_generator/cases/case_pending_resolved_and_always_inactive.go: the samples, the states that the case
-- allows at an instant, and what it expects from the API. It expects no alert to be sent. Conventions
-- are those of Cases/PendingFiring.
pub mod Timeline
pub mod Groups
pub mod Checking
pub mod Passing
use compliance.Base.{
  pos, ℕ, ◌+◌, ◌-◌, ◌*◌, ◌/◌, String, Bool, ◌||◌, List, [], ◌∷◌, ◌++◌, some, length,
}
use compliance.AlertGenerator.Api.{Time}
use compliance.AlertGenerator.ExpectedAlert.{ExpectedAlert}
use compliance.AlertGenerator.RemoteWrite.{TimeSeries}
use compliance.AlertGenerator.Cases.Checks.{ApiAlert, Sample}
use compliance.AlertGenerator.Cases.Rules.{RuleGroup, alerting}
use compliance.AlertGenerator.Cases.Common.{rw_interval, group_interval, from_millis, when, nth}
use compliance.AlertGenerator.Cases.Samples.{
  Notation, absolute, repeated, ProtoSample, sample_slice, between,
}

-- forDuration, in samples.
abbrev pub for_samples : ℕ
for_samples = 12

abbrev values : List (Notation ℕ)
values =
    absolute 3
    ∷ absolute 5
    ∷ repeated 0 2
    ∷ absolute 9
    ∷ repeated 0 3
    ∷ absolute 11
    ∷ repeated 0 10
    ∷ absolute 9
    ∷ []

unfoldable pub samples : List (ProtoSample ℕ)
unfolding sample_slice
samples = sample_slice (λ a b. a + b) (1000 * rw_interval) 0 values

-- SamplesToRemoteWrite: the series of the two rules have the same samples.
unfoldable pub samples_to_remote_write : {L : Type 0} → L → L → List (TimeSeries L ℕ)
unfolding samples
samples_to_remote_write pending_metric_labels inactive_metric_labels =
    record { labels = pending_metric_labels; samples = samples }
    ∷ record { labels = inactive_metric_labels; samples = samples }
    ∷ []

-- TestUntil, after SamplesToRemoteWrite.
unfoldable pub test_until : ℕ → ℕ
unfolding samples
test_until zero_time = zero_time + (length samples + 40) * (1000 * rw_interval)

-- The results of allPossibleStates.
pub record States : Type 0 where
  pub can_be_inactive : Bool
  pub can_be_pending : Bool

-- allPossibleStates.
unfoldable pub all_possible_states : ℕ → States
unfolding between
all_possible_states ts = record {
  can_be_inactive =
      between ts 0 (8 * rw_interval + group_interval)
      || between ts (19 * rw_interval) (240 * rw_interval);
  can_be_pending = between ts (8 * rw_interval - 1) (19 * rw_interval + group_interval);
}

module _ {L : Type 0} (from_strings : List String → L) where
  abbrev pub group_name : String
  group_name = "PendingAndResolved_AlwaysInactive"

  abbrev pending_alert_name : String
  pending_alert_name = "PendingAndResolved_AlwaysInactive_PendingAlert"

  abbrev inactive_alert_name : String
  inactive_alert_name = "PendingAndResolved_AlwaysInactive_InactiveAlert"

  abbrev pending_annotations : L
  pending_annotations = from_strings ("description" ∷ "SimpleAlert is firing" ∷ [])

  abbrev pub pending_alert : Time → ApiAlert L
  pending_alert active_at = record {
    labels =
        from_strings
          ("alertname" ∷ pending_alert_name ∷ "foo" ∷ "bar" ∷ "rulegroup" ∷ group_name ∷ []);
    annotations = pending_annotations;
    state = "pending";
    active_at = some active_at;
    value = "11";
  }

  -- expAlerts, `rel_ts` milliseconds after the start of the case.
  unfoldable pub exp_alerts : ℕ → ℕ → List (List (ApiAlert L))
  unfolding all_possible_states
  exp_alerts zero_time rel_ts =
      let s = all_possible_states rel_ts in
      when s.can_be_inactive []
      ++ when s.can_be_pending (pending_alert (from_millis (zero_time + nth 8)) ∷ [])

  -- getRg of expRuleGroups; fields that the function leaves out are zero.
  abbrev pub get_rg : String → String → String → List (ApiAlert L) → RuleGroup L ℕ
  get_rg pending_query inactive_query state alerts = record {
    name = group_name;
    file = "";
    interval = group_interval;
    evaluation_time = 0;
    last_evaluation = 0;
    rules =
        alerting (record {
          state = state;
          name = pending_alert_name;
          query = pending_query;
          duration = for_samples * rw_interval;
          labels = from_strings ("foo" ∷ "bar" ∷ "rulegroup" ∷ group_name ∷ []);
          annotations = pending_annotations;
          alerts = alerts;
          health = "ok";
          last_error = "";
          last_evaluation = 0;
          type = "alerting";
        })
        ∷ alerting (record {
          state = "inactive";
          name = inactive_alert_name;
          query = inactive_query;
          duration = for_samples * rw_interval;
          labels = from_strings ("ba_dum" ∷ "tss" ∷ "rulegroup" ∷ group_name ∷ []);
          annotations = from_strings ("description" ∷ "This should never fire" ∷ []);
          alerts = [];
          health = "ok";
          last_error = "";
          last_evaluation = 0;
          type = "alerting";
        })
        ∷ [];
  }

  -- expRuleGroups.
  unfoldable pub exp_rule_groups : String → String → ℕ → ℕ → List (RuleGroup L ℕ)
  unfolding all_possible_states
  exp_rule_groups pending_query inactive_query zero_time rel_ts =
      let s = all_possible_states rel_ts in
      let rg = get_rg pending_query inactive_query in
      when s.can_be_inactive (rg "inactive" [])
      ++ when s.can_be_pending (rg "pending" (pending_alert (from_millis (zero_time + nth 8)) ∷ []))

  abbrev pending_sample : ℕ → Sample L ℕ
  pending_sample ts = record {
    metric = from_strings (
        "__name__" ∷ "ALERTS" ∷ "alertstate" ∷ "pending" ∷ "alertname" ∷ pending_alert_name ∷ "foo"
        ∷ "bar" ∷ "rulegroup" ∷ group_name ∷ []);
    t = pos (ts / 1000);
    v = 1;
  }

  -- expMetrics.
  unfoldable pub exp_metrics : ℕ → ℕ → List (List (Sample L ℕ))
  unfolding all_possible_states
  exp_metrics zero_time rel_ts =
      let s = all_possible_states rel_ts in
      when s.can_be_inactive [] ++ when s.can_be_pending (pending_sample (zero_time + rel_ts) ∷ [])

-- ExpectedAlerts.
unfoldable pub expected_alerts : {L : Type 0} → List (ExpectedAlert L)
expected_alerts = []
