-- ===== src/AlertGenerator/Cases/NewAlerts.antt =====
-- alert_generator/cases/case_new_alerts_and_order_check.go: the samples of the two series, the states that
-- the case allows at an instant, the alerts, rule groups and metrics that it expects from the API. The
-- first rule has an alert for each of the series, its variants; the second rule fires when both
-- of them do. Conventions are those of Cases/PendingFiring.
pub mod Timeline
pub mod Sending
pub mod Groups
pub mod Checking
pub mod Passing
use compliance.Base.{
  pos, ℕ, ◌+◌, ◌-◌, ◌*◌, ◌/◌, ltb, String, Bool, ◌&&◌, ◌||◌, List, [], ◌∷◌, ◌++◌, some,
  if◌then◌else◌, length,
}
use compliance.AlertGenerator.Api.{Time}
use compliance.AlertGenerator.RemoteWrite.{TimeSeries}
use compliance.AlertGenerator.Cases.Checks.{ApiAlert, Sample}
use compliance.AlertGenerator.Cases.Rules.{AlertingRule, RuleGroup, alerting}
use compliance.AlertGenerator.Cases.Common.{rw_interval, group_interval, from_millis, when, nth}
use compliance.AlertGenerator.Cases.Samples.{
  Notation, absolute, repeated, ProtoSample, sample_slice, between,
}

-- forDuration, in samples.
abbrev pub for_samples : ℕ
for_samples = 12

abbrev values1 : List (Notation ℕ)
values1 = absolute 1 ∷ repeated 0 7 ∷ absolute 11 ∷ repeated 0 64 ∷ absolute 9 ∷ repeated 0 20 ∷ []

abbrev values2 : List (Notation ℕ)
values2 = absolute 1 ∷ repeated 0 31 ∷ absolute 11 ∷ repeated 0 32 ∷ absolute 9 ∷ repeated 0 20 ∷ []

unfoldable pub samples1 : List (ProtoSample ℕ)
unfolding sample_slice
samples1 = sample_slice (λ a b. a + b) (1000 * rw_interval) 0 values1

unfoldable pub samples2 : List (ProtoSample ℕ)
unfolding sample_slice
samples2 = sample_slice (λ a b. a + b) (1000 * rw_interval) 0 values2

-- SamplesToRemoteWrite; `series` are the labels of the series with the given variant.
unfoldable pub samples_to_remote_write : {L : Type 0} → (String → L) → List (TimeSeries L ℕ)
unfolding samples1 samples2
samples_to_remote_write series =
    record { labels = series "one"; samples = samples1 }
    ∷ record { labels = series "two"; samples = samples2 }
    ∷ []

unfoldable total_samples : ℕ
unfolding samples1 samples2
total_samples = if ltb (length samples1) (length samples2) then length samples2 else length samples1

-- TestUntil, after SamplesToRemoteWrite.
unfoldable pub test_until : ℕ → ℕ
unfolding total_samples
test_until zero_time = zero_time + total_samples * (1000 * rw_interval)

-- The results of allPossibleStates.
pub record States : Type 0 where
  pub r11_inactive : Bool
  pub r11_pending : Bool
  pub r11_firing : Bool
  pub r12_inactive : Bool
  pub r12_pending : Bool
  pub r12_firing : Bool

-- allPossibleStates.
unfoldable pub all_possible_states : ℕ → States
unfolding between
all_possible_states ts = record {
  r11_inactive =
      between ts 0 (8 * rw_interval + group_interval)
      || between ts (73 * rw_interval) (240 * rw_interval);
  r11_pending = between ts (8 * rw_interval - 1) (20 * rw_interval + group_interval);
  r11_firing = between ts (20 * rw_interval - 1) (73 * rw_interval + group_interval);
  r12_inactive =
      between ts 0 (32 * rw_interval + group_interval)
      || between ts (65 * rw_interval) (240 * rw_interval);
  r12_pending = between ts (32 * rw_interval - 1) (44 * rw_interval + group_interval);
  r12_firing = between ts (44 * rw_interval - 1) (73 * rw_interval + group_interval);
}

module _ {L : Type 0} (from_strings : List String → L) where
  abbrev pub group_name : String
  group_name = "NewAlerts_OrderCheck"

  abbrev r1_alert_name : String
  r1_alert_name = "NewAlerts_OrderCheck_Rule1"

  abbrev r2_alert_name : String
  r2_alert_name = "NewAlerts_OrderCheck_Rule2"

  abbrev r1_labels : String → L
  r1_labels variant = from_strings (
      "alertname" ∷ r1_alert_name ∷ "foo" ∷ "bar" ∷ "rulegroup" ∷ group_name ∷ "variant" ∷ variant
      ∷ [])

  abbrev r1_annotations : L
  r1_annotations = from_strings ("description" ∷ "This should produce more alerts later" ∷ [])

  abbrev r2_labels : L
  r2_labels = from_strings (
      "alertname" ∷ r2_alert_name ∷ "alertstate" ∷ "firing" ∷ "foo" ∷ "baz" ∷ "ba_dum" ∷ "tss"
      ∷ "rulegroup" ∷ group_name ∷ [])

  abbrev r2_annotations : L
  r2_annotations = from_strings (
      "description" ∷ "Based on ALERTS. Old alertname was NewAlerts_OrderCheck_Rule1. foo was bar."
      ∷ [])

  abbrev r1_alert : String → String → Time → ApiAlert L
  r1_alert variant state active_at = record {
    labels = r1_labels variant;
    annotations = r1_annotations;
    state = state;
    active_at = some active_at;
    value = "11";
  }

  abbrev r2_alert : Time → ApiAlert L
  r2_alert active_at = record {
    labels = r2_labels;
    annotations = r2_annotations;
    state = "firing";
    active_at = some active_at;
    value = "2";
  }

  -- expAlerts, `rel_ts` milliseconds after the start of the case.
  unfoldable pub exp_alerts : ℕ → ℕ → List (List (ApiAlert L))
  unfolding all_possible_states
  exp_alerts zero_time rel_ts =
      let s = all_possible_states rel_ts in
      let active_at = from_millis (zero_time + nth 8) in
      let active_at2 = from_millis (zero_time + nth 32) in
      let active_at3 = from_millis (zero_time + nth 44) in
      when (s.r11_inactive && s.r12_inactive) []
      ++ (when (s.r11_pending && s.r12_inactive) (r1_alert "one" "pending" active_at ∷ [])
          ++ (when (s.r11_firing && s.r12_inactive) (r1_alert "one" "firing" active_at ∷ [])
              ++ (when (s.r11_firing && s.r12_pending)
                    (r1_alert "one" "firing" active_at ∷ r1_alert "two" "pending" active_at2 ∷ [])
                  ++ when (s.r11_firing && s.r12_firing) (
                      r1_alert "one" "firing" active_at
                      ∷ r1_alert "two" "firing" active_at2
                      ∷ r2_alert active_at3
                      ∷ []))))

  -- getRg of expRuleGroups; fields that the function leaves out are zero.
  abbrev pub get_rg :
      String → String → String → String → List (ApiAlert L) → List (ApiAlert L) → RuleGroup L ℕ
  get_rg r1_query r2_query s1 s2 a1 a2 = record {
    name = group_name;
    file = "";
    interval = group_interval;
    evaluation_time = 0;
    last_evaluation = 0;
    rules =
        alerting (record {
          state = s1;
          name = r1_alert_name;
          query = r1_query;
          duration = for_samples * rw_interval;
          labels = from_strings ("foo" ∷ "bar" ∷ "rulegroup" ∷ group_name ∷ []);
          annotations = r1_annotations;
          alerts = a1;
          health = "ok";
          last_error = "";
          last_evaluation = 0;
          type = "alerting";
        })
        ∷ alerting (record {
          state = s2;
          name = r2_alert_name;
          query = r2_query;
          duration = 0;
          labels = from_strings ("foo" ∷ "baz" ∷ "ba_dum" ∷ "tss" ∷ "rulegroup" ∷ group_name ∷ []);
          annotations = from_strings (
              "description"
              ∷ "Based on ALERTS. Old alertname was {{$labels.alertname}}. foo was {{.Labels.foo}}."
              ∷ []);
          alerts = a2;
          health = "ok";
          last_error = "";
          last_evaluation = 0;
          type = "alerting";
        })
        ∷ [];
  }

  -- expRuleGroups.
  unfoldable pub exp_rule_groups : String → String → ℕ → ℕ → List (RuleGroup L ℕ)
  unfolding all_possible_states
  exp_rule_groups r1_query r2_query zero_time rel_ts =
      let s = all_possible_states rel_ts in
      let active_at = from_millis (zero_time + nth 8) in
      let active_at2 = from_millis (zero_time + nth 32) in
      let active_at3 = from_millis (zero_time + nth 44) in
      let rg = get_rg r1_query r2_query in
      when (s.r11_inactive && s.r12_inactive) (rg "inactive" "inactive" [] [])
      ++ (when (s.r11_pending && s.r12_inactive)
            (rg "pending" "inactive" (r1_alert "one" "pending" active_at ∷ []) [])
          ++ (when (s.r11_firing && s.r12_inactive)
                (rg "firing" "inactive" (r1_alert "one" "firing" active_at ∷ []) [])
              ++ (when (s.r11_firing && s.r12_pending) (
                    rg "firing" "inactive"
                      (r1_alert "one" "firing" active_at ∷ r1_alert "two" "pending" active_at2 ∷ [])
                      [])
                  ++ when (s.r11_firing && s.r12_firing) (
                      rg "firing" "firing"
                        (r1_alert "one" "firing" active_at
                          ∷ r1_alert "two" "firing" active_at2
                          ∷ [])
                        (r2_alert active_at3 ∷ [])))))

  abbrev r1_sample : ℕ → String → String → Sample L ℕ
  r1_sample ts state variant = record {
    metric = from_strings (
        "__name__" ∷ "ALERTS" ∷ "alertstate" ∷ state ∷ "alertname" ∷ r1_alert_name ∷ "foo" ∷ "bar"
        ∷ "rulegroup" ∷ group_name ∷ "variant" ∷ variant ∷ []);
    t = pos (ts / 1000);
    v = 1;
  }

  abbrev r2_sample : ℕ → Sample L ℕ
  r2_sample ts = record {
    metric = from_strings (
        "__name__" ∷ "ALERTS" ∷ "alertstate" ∷ "firing" ∷ "alertname" ∷ r2_alert_name ∷ "foo"
        ∷ "baz" ∷ "ba_dum" ∷ "tss" ∷ "rulegroup" ∷ group_name ∷ []);
    t = pos (ts / 1000);
    v = 1;
  }

  -- expMetrics.
  unfoldable pub exp_metrics : ℕ → ℕ → List (List (Sample L ℕ))
  unfolding all_possible_states
  exp_metrics zero_time rel_ts =
      let s = all_possible_states rel_ts in
      let ts = zero_time + rel_ts in
      when (s.r11_inactive && s.r12_inactive) []
      ++ (when (s.r11_pending && s.r12_inactive) (r1_sample ts "pending" "one" ∷ [])
          ++ (when (s.r11_firing && s.r12_inactive) (r1_sample ts "firing" "one" ∷ [])
              ++ (when (s.r11_firing && s.r12_pending)
                    (r1_sample ts "firing" "one" ∷ r1_sample ts "pending" "two" ∷ [])
                  ++ when (s.r11_firing && s.r12_firing) (
                      r1_sample ts "firing" "one"
                      ∷ r1_sample ts "firing" "two"
                      ∷ r2_sample ts
                      ∷ []))))
