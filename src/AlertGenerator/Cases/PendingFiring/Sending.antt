-- ===== src/AlertGenerator/Cases/PendingFiring/Sending.antt =====
-- alert_generator/cases/case_pending_firing_resolved.go: ExpectedAlerts. Instants of the loops are
-- milliseconds after the start of the case.
use compliance.Base.{ℕ, ◌+◌, ◌*◌, ◌==◌, String, Bool, true, false, not, List, []}
use compliance.AlertGenerator.Api.{Time, Duration}
use compliance.AlertGenerator.ExpectedAlert.{ExpectedAlert, resend_delay}
use compliance.AlertGenerator.Cases.Common.{
  from_millis, nth, group_tolerance, resolved_tolerance, loop, add_alerts, instants,
}
use compliance.AlertGenerator.Cases.PendingFiring.{alert_labels, alert_annotations}

module _ {L : Type 0} (from_strings : List String → L) (zero_time : ℕ) where
  -- The alert of a loop: `first` is the instant at which the state begins, `starts` the StartsAt.
  -- A field that is not set is zero.
  abbrev pub expected : Duration → Bool → Bool → Time → ℕ → String → ℕ → ℕ → ExpectedAlert L
  expected tolerance resolved resend next_state resolved_time summary starts ts = record {
    ordering_id = 0;
    time_tolerance = tolerance;
    ts = from_millis (zero_time + ts);
    next_state = next_state;
    resolved = resolved;
    resend = resend;
    resolved_time = from_millis (zero_time + resolved_time);
    ends_at_delta = 4 * resend_delay;
    alert = record {
      labels = alert_labels from_strings;
      annotations = alert_annotations from_strings summary;
      starts_at = from_millis (zero_time + starts);
      ends_at = 0;
      generator_url = "";
    };
  }

  -- The bodies of the five loops.
  abbrev pub firing_alert : ℕ → ExpectedAlert L
  firing_alert ts =
      expected group_tolerance false (not (ts == nth 32)) (from_millis (zero_time + nth 53))
        (nth 69) "The value is 15 15" (nth 32) ts

  abbrev pub changed_alert : ℕ → ExpectedAlert L
  changed_alert ts =
      expected group_tolerance false true (from_millis (zero_time + nth 69)) (nth 69)
        "The value is 19 19" (nth 32) ts

  abbrev pub resolved_alert : ℕ → ExpectedAlert L
  resolved_alert ts =
      expected (resolved_tolerance (nth 69) ts) true (not (ts == nth 69))
        (from_millis (zero_time + nth 89)) (nth 69) "The value is 19 19" (nth 32) ts

  abbrev pub firing_again_alert : ℕ → ExpectedAlert L
  firing_again_alert ts =
      expected group_tolerance false (not (ts == nth 113)) (from_millis (zero_time + nth 134))
        (nth 134) "The value is 15 15" (nth 113) ts

  abbrev pub resolved_again_alert : ℕ → ExpectedAlert L
  resolved_again_alert ts =
      expected (resolved_tolerance (nth 134) ts) true (not (ts == nth 134)) 0 (nth 134)
        "The value is 15 15" (nth 113) ts

  -- ExpectedAlerts.
  unfoldable pub expected_alerts : List (ExpectedAlert L)
  unfolding add_alerts instants
  expected_alerts =
      (add_alerts resolved_again_alert (loop (nth 134) (nth 134 + 900000)) (
        add_alerts firing_again_alert (loop (nth 113) (nth 134)) (
          add_alerts resolved_alert (loop (nth 69) (nth 89)) (
            add_alerts changed_alert (loop (nth 53) (nth 69)) (
              add_alerts firing_alert (loop (nth 32) (nth 53))
                (record { ordering_id = 0; exp = [] })))))).exp
