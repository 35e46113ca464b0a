-- ===== src/AlertGenerator/Cases/PendingFiring.antt =====
-- alert_generator/cases/case_pending_firing_resolved.go: the samples, the states that the case
-- allows at an instant, the alerts and metrics that it expects from the API and the alerts that it
-- expects to be sent. `ts` and `zero_time` are milliseconds after the Unix epoch; an
-- instant before the start of the case is outside the model. Label sets are made by the parameter
-- `from_strings`; the value of a sample is a natural number.
pub mod Timeline
pub mod Sending
pub mod Numbering
pub mod Groups
pub mod Checking
pub mod Passing
use compliance.Base.{
  pos, ℕ, zero, suc, ◌+◌, ◌-◌, ◌*◌, ◌/◌, ◌==◌, ltb, String, Bool, true, false, not, ◌&&◌, ◌||◌,
  List, [], ◌∷◌, ◌++◌, Option, none, some, if◌then◌else◌, length,
}
use compliance.AlertGenerator.Api.{Time, Duration, second, minute, Alert}
use compliance.AlertGenerator.ExpectedAlert.{ExpectedAlert, resend_delay}
use compliance.AlertGenerator.Cases.Checks.{ApiAlert, Sample}
use compliance.AlertGenerator.Cases.Rules.{RuleGroup, alerting}
use compliance.AlertGenerator.Cases.Common.{rw_interval, group_interval, from_millis, when}
use compliance.AlertGenerator.Cases.Samples.{
  Notation, absolute, repeated, ProtoSample, sample_slice, between,
}

abbrev pub for_samples : ℕ
for_samples = 24

-- The arguments of sampleSlice.
abbrev pub values : List (Notation ℕ)
values =
    absolute 3
    ∷ absolute 5
    ∷ repeated 0 2
    ∷ absolute 9
    ∷ repeated 0 3
    ∷ absolute 11
    ∷ repeated 0 12
    ∷ absolute 15
    ∷ repeated 0 11
    ∷ repeated 0 20
    ∷ absolute 19
    ∷ repeated 0 15
    ∷ absolute 9
    ∷ repeated 0 19
    ∷ absolute 15
    ∷ repeated 0 24
    ∷ repeated 0 20
    ∷ absolute 8
    ∷ repeated 0 15
    ∷ []

-- SamplesToRemoteWrite.
unfoldable pub samples_to_remote_write : List (ProtoSample ℕ)
unfolding sample_slice
samples_to_remote_write = sample_slice (λ a b. a + b) (1000 * rw_interval) 0 values

-- TestUntil, after SamplesToRemoteWrite.
unfoldable pub test_until : ℕ → ℕ
unfolding samples_to_remote_write
test_until zero_time = zero_time + length samples_to_remote_write * (1000 * rw_interval)

-- The results of allPossibleStates.
pub record States : Type 0 where
  pub can_be_inactive : Bool
  pub can_be_pending1 : Bool
  pub can_be_pending2 : Bool
  pub can_be_firing1 : Bool
  pub can_be_firing2 : Bool
  pub pending_again : Bool
  pub firing_again : Bool

-- allPossibleStates.
unfoldable all_possible_states : ℕ → States
unfolding between
all_possible_states ts = record {
  can_be_inactive =
      between ts 0 (8 * rw_interval + group_interval)
      || (between ts (69 * rw_interval - 1) (89 * rw_interval + group_interval)
          || between ts (134 * rw_interval) (240 * rw_interval));
  can_be_pending1 = between ts (8 * rw_interval - 1) (21 * rw_interval + group_interval);
  can_be_pending2 = between ts (21 * rw_interval - 1) (32 * rw_interval + group_interval);
  can_be_firing1 = between ts (32 * rw_interval - 1) (53 * rw_interval + group_interval);
  can_be_firing2 = between ts (53 * rw_interval - 1) (69 * rw_interval + group_interval);
  pending_again = between ts (89 * rw_interval - 1) (113 * rw_interval + group_interval);
  firing_again = between ts (113 * rw_interval - 1) (134 * rw_interval + group_interval);
}

module _ {L : Type 0} (from_strings : List String → L) where
  abbrev pub group_name : String
  group_name = "PendingAndFiringAndResolved"

  abbrev alert_name : String
  alert_name = "PendingAndFiringAndResolved_SimpleAlert"

  abbrev alert_labels : L
  alert_labels =
      from_strings ("alertname" ∷ alert_name ∷ "foo" ∷ "bar" ∷ "rulegroup" ∷ group_name ∷ [])

  abbrev alert_annotations : String → L
  alert_annotations summary =
      from_strings ("description" ∷ "SimpleAlert is firing" ∷ "summary" ∷ summary ∷ [])

  abbrev api_alert : String → String → String → Time → ApiAlert L
  api_alert state value summary active_at = record {
    labels = alert_labels;
    annotations = alert_annotations summary;
    state = state;
    active_at = some active_at;
    value = value;
  }

  -- expAlerts, `rel_ts` milliseconds after the start of the case.
  unfoldable pub exp_alerts : ℕ → ℕ → List (List (ApiAlert L))
  unfolding all_possible_states
  exp_alerts zero_time rel_ts =
      let s = all_possible_states rel_ts in
      let active_at = from_millis (zero_time + 8 * (1000 * rw_interval)) in
      let active_at2 = from_millis (zero_time + 89 * (1000 * rw_interval)) in
      when s.can_be_inactive []
      ++ (when s.can_be_pending1 (api_alert "pending" "11" "The value is 11 11" active_at ∷ [])
          ++ (when (s.can_be_pending2 || s.pending_again) (
                api_alert "pending" "15" "The value is 15 15"
                  (if s.pending_again then active_at2 else active_at)
                ∷ [])
              ++ (when (s.can_be_firing1 || s.firing_again) (
                    api_alert "firing" "15" "The value is 15 15"
                      (if s.firing_again then active_at2 else active_at)
                    ∷ [])
                  ++ when s.can_be_firing2
                      (api_alert "firing" "19" "The value is 19 19" active_at ∷ []))))

  abbrev alerts_metric : String → L
  alerts_metric state = from_strings (
      "__name__" ∷ "ALERTS" ∷ "alertstate" ∷ state ∷ "alertname" ∷ alert_name ∷ "foo" ∷ "bar"
      ∷ "rulegroup" ∷ group_name ∷ [])

  abbrev alerts_sample : ℕ → String → Sample L ℕ
  alerts_sample ts state = record { metric = alerts_metric state; t = pos (ts / 1000); v = 1 }

  -- expMetrics.
  unfoldable exp_metrics : ℕ → ℕ → List (List (Sample L ℕ))
  unfolding all_possible_states
  exp_metrics zero_time rel_ts =
      let s = all_possible_states rel_ts in
      when s.can_be_inactive []
      ++ (when (s.can_be_pending1 || (s.can_be_pending2 || s.pending_again))
            (alerts_sample (zero_time + rel_ts) "pending" ∷ [])
          ++ when (s.can_be_firing1 || (s.can_be_firing2 || s.firing_again))
              (alerts_sample (zero_time + rel_ts) "firing" ∷ []))

  -- getRg of expRuleGroups. `query` is the text of the labels of the series and `> 10`; fields that
  -- the function leaves out are zero.
  abbrev get_rg : String → String → List (ApiAlert L) → RuleGroup L ℕ
  get_rg query state alerts = record {
    name = group_name;
    file = "";
    interval = group_interval;
    evaluation_time = 0;
    last_evaluation = 0;
    rules =
        alerting (record {
          state = state;
          name = alert_name;
          query = query;
          duration = for_samples * rw_interval;
          labels = from_strings ("foo" ∷ "bar" ∷ "rulegroup" ∷ group_name ∷ []);
          annotations = alert_annotations "The value is {{$value}} {{.Value}}";
          alerts = alerts;
          health = "ok";
          last_error = "";
          last_evaluation = 0;
          type = "alerting";
        })
        ∷ [];
  }

  -- expRuleGroups.
  unfoldable pub exp_rule_groups : String → ℕ → ℕ → List (RuleGroup L ℕ)
  unfolding all_possible_states
  exp_rule_groups query zero_time rel_ts =
      let s = all_possible_states rel_ts in
      let active_at = from_millis (zero_time + 8 * (1000 * rw_interval)) in
      let active_at2 = from_millis (zero_time + 89 * (1000 * rw_interval)) in
      when s.can_be_inactive (get_rg query "inactive" [])
      ++ (when s.can_be_pending1
            (get_rg query "pending" (api_alert "pending" "11" "The value is 11 11" active_at ∷ []))
          ++ (when (s.can_be_pending2 || s.pending_again) (
                get_rg query "pending" (
                  api_alert "pending" "15" "The value is 15 15"
                    (if s.pending_again then active_at2 else active_at)
                  ∷ []))
              ++ (when (s.can_be_firing1 || s.firing_again) (
                    get_rg query "firing" (
                      api_alert "firing" "15" "The value is 15 15"
                        (if s.firing_again then active_at2 else active_at)
                      ∷ []))
                  ++ when s.can_be_firing2 (
                      get_rg query "firing"
                        (api_alert "firing" "19" "The value is 19 19" active_at ∷ [])))))
