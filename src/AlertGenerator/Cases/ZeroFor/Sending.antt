-- ===== src/AlertGenerator/Cases/ZeroFor/Sending.antt =====
-- alert_generator/cases/case_zero_for_and_small_for.go: ExpectedAlerts, and what it guarantees to the alert
-- server.
use compliance.Base.{ℕ, ◌+◌, ◌*◌, ◌≡◌, String, false, List, [], All, arith}
use compliance.AlertGenerator.ExpectedAlert.{ExpectedAlert, should_be_ignored}
use compliance.AlertGenerator.Cases.Common.{
  group_interval, from_millis, nth, firing_alert, resolved_alert, loop, add_alerts, instants,
}
use compliance.AlertGenerator.Cases.Common.Numbering.{Numbered, loop-IsFit, nothing-IsFit}
use compliance.AlertGenerator.Cases.ZeroFor.{
  zf_labels, sf_labels, zf_annotations, first_query_test, second_query_test, sf_annotations,
}

-- A group interval after the 8th sample.
abbrev eighth_plus_gi : ℕ
eighth_plus_gi = nth 8 + 1000 * group_interval

module _ {L : Type 0} (from_strings : List String → L) (zero_time : ℕ) where
  -- The bodies of the six loops.
  abbrev zf_firing_alert : ℕ → ExpectedAlert L
  zf_firing_alert =
      firing_alert zero_time (zf_labels from_strings) (zf_annotations from_strings first_query_test)
        (nth 8) (nth 21)

  abbrev zf_resolved_alert : ℕ → ExpectedAlert L
  zf_resolved_alert =
      resolved_alert zero_time (zf_labels from_strings)
        (zf_annotations from_strings first_query_test) (from_millis (zero_time + nth 93)) (nth 8)
        (nth 21)

  abbrev zf_firing_again_alert : ℕ → ExpectedAlert L
  zf_firing_again_alert =
      firing_alert zero_time (zf_labels from_strings)
        (zf_annotations from_strings second_query_test) (nth 93) (nth 106)

  abbrev zf_resolved_again_alert : ℕ → ExpectedAlert L
  zf_resolved_again_alert =
      resolved_alert zero_time (zf_labels from_strings)
        (zf_annotations from_strings second_query_test) 0 (nth 93) (nth 106)

  abbrev sf_firing_alert : ℕ → ExpectedAlert L
  sf_firing_alert =
      firing_alert zero_time (sf_labels from_strings) (sf_annotations from_strings) eighth_plus_gi
        (nth 21)

  abbrev sf_resolved_alert : ℕ → ExpectedAlert L
  sf_resolved_alert =
      resolved_alert zero_time (sf_labels from_strings) (sf_annotations from_strings) 0
        eighth_plus_gi (nth 21)

  -- ExpectedAlerts.
  unfoldable pub expected_alerts : List (ExpectedAlert L)
  unfolding add_alerts instants
  expected_alerts =
      (add_alerts sf_resolved_alert (loop (nth 21) (nth 21 + 900000)) (
        add_alerts sf_firing_alert (loop eighth_plus_gi (nth 21)) (
          add_alerts zf_resolved_again_alert (loop (nth 106) (nth 106 + 900000)) (
            add_alerts zf_firing_again_alert (loop (nth 93) (nth 106)) (
              add_alerts zf_resolved_alert (loop (nth 21) (nth 21 + 900000)) (
                add_alerts zf_firing_alert (loop (nth 8) (nth 21))
                  (record { ordering_id = 0; exp = [] }))))))).exp

  -- The alerts that the case expects, whatever its start, are numbered 1, 2, 3 and so on by
  -- OrderingID in the order of the list, over both rules, and the server drops none of them at once:
  -- each comes before its next state and, if resolved, within 15 minutes of its resolution.
  pub for_expected_alerts-Numbered :
      Numbered 0 expected_alerts × All (λ ea. should_be_ignored ea ≡ false) expected_alerts
  unfolding expected_alerts should_be_ignored
  for_expected_alerts-Numbered =
      let fit =
        loop-IsFit sf_resolved_alert (nth 21) (nth 21 + 900000) _ (λ t h. ground arith)
          (loop-IsFit sf_firing_alert eighth_plus_gi (nth 21) _ (λ t h. ground arith)
            (loop-IsFit zf_resolved_again_alert (nth 106) (nth 106 + 900000) _ (λ t h. ground arith)
              (loop-IsFit zf_firing_again_alert (nth 93) (nth 106) _ (λ t h. ground arith)
                (loop-IsFit zf_resolved_alert (nth 21) (nth 21 + 900000) _ (λ t h. ground arith)
                  (loop-IsFit zf_firing_alert (nth 8) (nth 21) _ (λ t h. ground arith)
                    nothing-IsFit))))) in
      (fit.numbered, fit.wanted)
