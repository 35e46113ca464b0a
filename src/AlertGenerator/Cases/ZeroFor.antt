-- ===== src/AlertGenerator/Cases/ZeroFor.antt =====
-- alert_generator/cases/case_zero_for_and_small_for.go: the samples, the states that the case allows at an
-- instant, and the alerts, rule groups and metrics that it expects from the API. The first rule fires at once, the
-- second one at its second evaluation. Conventions are those of Cases/PendingFiring.
pub mod Timeline
pub mod Sending
pub mod Groups
pub mod Checking
pub mod Passing
use compliance.Base.{
  pos, ℕ, ◌+◌, ◌-◌, ◌*◌, ◌/◌, String, Bool, ◌&&◌, ◌||◌, List, [], ◌∷◌, ◌++◌, some, length,
}
use compliance.AlertGenerator.Api.{Time}
use compliance.AlertGenerator.RemoteWrite.{TimeSeries}
use compliance.AlertGenerator.Cases.Checks.{ApiAlert, Sample}
use compliance.AlertGenerator.Cases.Rules.{RuleGroup, alerting}
use compliance.AlertGenerator.Cases.Common.{rw_interval, group_interval, from_millis, when, nth}
use compliance.AlertGenerator.Cases.Samples.{
  Notation, absolute, repeated, ProtoSample, sample_slice, between,
}

abbrev values : List (Notation ℕ)
values =
    absolute 3
    ∷ absolute 5
    ∷ repeated 0 2
    ∷ absolute 9
    ∷ repeated 0 3
    ∷ absolute 15
    ∷ repeated 0 12
    ∷ absolute 9
    ∷ repeated 0 71
    ∷ absolute 11
    ∷ repeated 0 12
    ∷ absolute 9
    ∷ []

unfoldable pub samples : List (ProtoSample ℕ)
unfolding sample_slice
samples = sample_slice (λ a b. a + b) (1000 * rw_interval) 0 values

-- The samples of the series `i` for the query in a template.
unfoldable template_samples : ℕ → List (ProtoSample ℕ)
unfolding sample_slice
template_samples i =
    sample_slice (λ a b. a + b) (1000 * rw_interval) 0
      (absolute i ∷ repeated 0 27 ∷ absolute (2 * i) ∷ repeated 0 200 ∷ [])

-- SamplesToRemoteWrite; `template_labels` makes the labels of such a series from its id and its
-- value.
unfoldable pub samples_to_remote_write :
    {L : Type 0} → L → L → (String → String → L) → List (TimeSeries L ℕ)
unfolding samples template_samples
samples_to_remote_write zf_metric_labels sf_metric_labels template_labels =
    record { labels = zf_metric_labels; samples = samples }
    ∷ record { labels = sf_metric_labels; samples = samples }
    ∷ record { labels = template_labels "101" "val1"; samples = template_samples 1 }
    ∷ record { labels = template_labels "102" "val2"; samples = template_samples 2 }
    ∷ record { labels = template_labels "103" "val3"; samples = template_samples 3 }
    ∷ []

-- TestUntil, after SamplesToRemoteWrite.
unfoldable pub test_until : ℕ → ℕ
unfolding samples
test_until zero_time = zero_time + (length samples + 20) * (1000 * rw_interval)

-- The results of allPossibleStates.
pub record States : Type 0 where
  pub can_be_inactive : Bool
  pub zf_firing : Bool
  pub zf_firing_again : Bool
  pub sf_pending : Bool
  pub sf_firing : Bool

-- allPossibleStates.
unfoldable pub all_possible_states : ℕ → States
unfolding between
all_possible_states ts = record {
  can_be_inactive =
      between ts 0 (8 * rw_interval + group_interval)
      || (between ts (21 * rw_interval - 1) (93 * rw_interval + group_interval)
          || between ts (106 * rw_interval) (240 * rw_interval));
  zf_firing = between ts (8 * rw_interval - 1) (21 * rw_interval + group_interval);
  zf_firing_again = between ts (93 * rw_interval - 1) (106 * rw_interval + group_interval);
  sf_pending = between ts (8 * rw_interval - 1) (8 * rw_interval + 2 * group_interval);
  sf_firing = between ts (8 * rw_interval + group_interval) (21 * rw_interval + group_interval);
}

-- What the template query gives for the first samples of its series, and for the later ones.
abbrev first_query_test : String
first_query_test = "Args are: foo bar 99. first_id:101,101:1,102:2,103:3,"

abbrev second_query_test : String
second_query_test = "Args are: foo bar 99. first_id:101,101:2,102:4,103:6,"

module _ {L : Type 0} (from_strings : List String → L) where
  abbrev pub group_name : String
  group_name = "ZeroFor_SmallFor"

  abbrev zf_alert_name : String
  zf_alert_name = "ZeroFor_SmallFor_ZeroFor"

  abbrev sf_alert_name : String
  sf_alert_name = "ZeroFor_SmallFor_SmallFor"

  abbrev zf_labels : L
  zf_labels =
      from_strings ("alertname" ∷ zf_alert_name ∷ "foo" ∷ "bar" ∷ "rulegroup" ∷ group_name ∷ [])

  abbrev sf_labels : L
  sf_labels =
      from_strings ("alertname" ∷ sf_alert_name ∷ "ba_dum" ∷ "tss" ∷ "rulegroup" ∷ group_name ∷ [])

  -- The annotations of the first rule, with the results of its template query.
  abbrev zf_annotations : String → L
  zf_annotations template_query_test = from_strings (
      "description" ∷ "This should immediately fire" ∷ "template_test"
      ∷ "1.049M 1Mi 2m 15s 95.9% 2022-01-25 12:36:43 +0000 UTC" ∷ "template_query_test"
      ∷ template_query_test ∷ [])

  abbrev sf_annotations : L
  sf_annotations = from_strings (
      "description" ∷ "This should fire after an interval" ∷ "template_test"
      ∷ "This Part IS TESTING the strings. ::1 127.0.0.1. 7815. replaced text. ." ∷ [])

  abbrev zf_alert : String → String → Time → ApiAlert L
  zf_alert template_query_test value active_at = record {
    labels = zf_labels;
    annotations = zf_annotations template_query_test;
    state = "firing";
    active_at = some active_at;
    value = value;
  }

  abbrev sf_alert : String → Time → ApiAlert L
  sf_alert state active_at = record {
    labels = sf_labels;
    annotations = sf_annotations;
    state = state;
    active_at = some active_at;
    value = "15";
  }

  -- expAlerts, `rel_ts` milliseconds after the start of the case.
  unfoldable pub exp_alerts : ℕ → ℕ → List (List (ApiAlert L))
  unfolding all_possible_states
  exp_alerts zero_time rel_ts =
      let s = all_possible_states rel_ts in
      let active_at = from_millis (zero_time + nth 8) in
      let active_at2 = from_millis (zero_time + nth 93) in
      when s.can_be_inactive []
      ++ (when (s.zf_firing && s.sf_pending)
            (zf_alert first_query_test "15" active_at ∷ sf_alert "pending" active_at ∷ [])
          ++ (when (s.zf_firing && s.sf_firing)
                (zf_alert first_query_test "15" active_at ∷ sf_alert "firing" active_at ∷ [])
              ++ when s.zf_firing_again (zf_alert second_query_test "11" active_at2 ∷ [])))

  -- getRg of expRuleGroups: `zf_template` and `sf_template` are the annotations of the two rules, with their
  -- templates; fields that the function leaves out are zero.
  abbrev pub get_rg :
      String
      → String
      → L
      → L
      → String
      → String
      → List (ApiAlert L)
      → List (ApiAlert L)
      → RuleGroup L ℕ
  get_rg zf_query sf_query zf_template sf_template s1 s2 a1 a2 = record {
    name = group_name;
    file = "";
    interval = group_interval;
    evaluation_time = 0;
    last_evaluation = 0;
    rules =
        alerting (record {
          state = s1;
          name = zf_alert_name;
          query = zf_query;
          duration = 0;
          labels = from_strings ("foo" ∷ "bar" ∷ "rulegroup" ∷ group_name ∷ []);
          annotations = zf_template;
          alerts = a1;
          health = "ok";
          last_error = "";
          last_evaluation = 0;
          type = "alerting";
        })
        ∷ alerting (record {
          state = s2;
          name = sf_alert_name;
          query = sf_query;
          duration = group_interval / 2;
          labels = from_strings ("ba_dum" ∷ "tss" ∷ "rulegroup" ∷ group_name ∷ []);
          annotations = sf_template;
          alerts = a2;
          health = "ok";
          last_error = "";
          last_evaluation = 0;
          type = "alerting";
        })
        ∷ [];
  }

  -- expRuleGroups.
  unfoldable pub exp_rule_groups : String → String → L → L → ℕ → ℕ → List (RuleGroup L ℕ)
  unfolding all_possible_states
  exp_rule_groups zf_query sf_query zf_template sf_template zero_time rel_ts =
      let s = all_possible_states rel_ts in
      let active_at = from_millis (zero_time + nth 8) in
      let active_at2 = from_millis (zero_time + nth 93) in
      let rg = get_rg zf_query sf_query zf_template sf_template in
      when s.can_be_inactive (rg "inactive" "inactive" [] [])
      ++ (when (s.zf_firing && s.sf_pending) (
            rg "firing" "pending" (zf_alert first_query_test "15" active_at ∷ [])
              (sf_alert "pending" active_at ∷ []))
          ++ (when (s.zf_firing && s.sf_firing) (
                rg "firing" "firing" (zf_alert first_query_test "15" active_at ∷ [])
                  (sf_alert "firing" active_at ∷ []))
              ++ when s.zf_firing_again
                  (rg "firing" "inactive" (zf_alert second_query_test "11" active_at2 ∷ []) [])))

  abbrev zf_sample : ℕ → Sample L ℕ
  zf_sample ts = record {
    metric = from_strings (
        "__name__" ∷ "ALERTS" ∷ "alertstate" ∷ "firing" ∷ "alertname" ∷ zf_alert_name ∷ "foo"
        ∷ "bar" ∷ "rulegroup" ∷ group_name ∷ []);
    t = pos (ts / 1000);
    v = 1;
  }

  abbrev sf_sample : ℕ → String → Sample L ℕ
  sf_sample ts state = record {
    metric = from_strings (
        "__name__" ∷ "ALERTS" ∷ "alertstate" ∷ state ∷ "alertname" ∷ sf_alert_name ∷ "ba_dum"
        ∷ "tss" ∷ "rulegroup" ∷ group_name ∷ []);
    t = pos (ts / 1000);
    v = 1;
  }

  -- expMetrics.
  unfoldable pub exp_metrics : ℕ → ℕ → List (List (Sample L ℕ))
  unfolding all_possible_states
  exp_metrics zero_time rel_ts =
      let s = all_possible_states rel_ts in
      let ts = zero_time + rel_ts in
      when s.can_be_inactive []
      ++ (when (s.zf_firing && s.sf_pending) (zf_sample ts ∷ sf_sample ts "pending" ∷ [])
          ++ (when (s.zf_firing && s.sf_firing) (zf_sample ts ∷ sf_sample ts "firing" ∷ [])
              ++ when s.zf_firing_again (zf_sample ts ∷ [])))
