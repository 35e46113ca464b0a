-- ===== src/AlertGenerator/Cases/NewAlerts/Sending.antt =====
-- alert_generator/cases/case_new_alerts_and_order_check.go: ExpectedAlerts, and what it guarantees to the alert
-- server.
use compliance.Base.{ℕ, ◌+◌, ◌≡◌, String, false, List, [], All, arith}
use compliance.AlertGenerator.ExpectedAlert.{ExpectedAlert, should_be_ignored}
use compliance.AlertGenerator.Cases.Common.{
  nth, firing_alert, resolved_alert, loop, add_alerts, add_both, instants,
}
use compliance.AlertGenerator.Cases.Common.Numbering.{
  Numbered, loop-IsFit, loop_both-IsFit, nothing-IsFit,
}
use compliance.AlertGenerator.Cases.NewAlerts.{r1_labels, r1_annotations, r2_labels, r2_annotations}

module _ {L : Type 0} (from_strings : List String → L) (zero_time : ℕ) where
  -- The bodies of the four loops: the first variant, then the second one with the second rule.
  abbrev r11_firing_alert : ℕ → ExpectedAlert L
  r11_firing_alert =
      firing_alert zero_time (r1_labels from_strings "one") (r1_annotations from_strings) (nth 20)
        (nth 73)

  abbrev r11_resolved_alert : ℕ → ExpectedAlert L
  r11_resolved_alert =
      resolved_alert zero_time (r1_labels from_strings "one") (r1_annotations from_strings) 0
        (nth 20) (nth 73)

  abbrev r12_firing_alert : ℕ → ExpectedAlert L
  r12_firing_alert =
      firing_alert zero_time (r1_labels from_strings "two") (r1_annotations from_strings) (nth 44)
        (nth 65)

  abbrev r2_firing_alert : ℕ → ExpectedAlert L
  r2_firing_alert =
      firing_alert zero_time (r2_labels from_strings) (r2_annotations from_strings) (nth 44)
        (nth 65)

  abbrev r12_resolved_alert : ℕ → ExpectedAlert L
  r12_resolved_alert =
      resolved_alert zero_time (r1_labels from_strings "two") (r1_annotations from_strings) 0
        (nth 44) (nth 65)

  abbrev r2_resolved_alert : ℕ → ExpectedAlert L
  r2_resolved_alert =
      resolved_alert zero_time (r2_labels from_strings) (r2_annotations from_strings) 0 (nth 44)
        (nth 65)

  -- ExpectedAlerts.
  unfoldable pub expected_alerts : List (ExpectedAlert L)
  unfolding add_alerts add_both instants
  expected_alerts =
      (add_both r12_resolved_alert r2_resolved_alert (loop (nth 65) (nth 65 + 900000)) (
        add_both r12_firing_alert r2_firing_alert (loop (nth 44) (nth 65)) (
          add_alerts r11_resolved_alert (loop (nth 73) (nth 73 + 900000)) (
            add_alerts r11_firing_alert (loop (nth 20) (nth 73))
              (record { ordering_id = 0; exp = [] }))))).exp

  -- The alerts that the case expects, whatever its start, are numbered 1, 2, 3 and so on by
  -- OrderingID in the order of the list, over both variants and the second rule, and the server
  -- drops none of them at once: each comes before its next state and, if resolved, within 15 minutes of
  -- its resolution.
  pub new_expected_alerts-Numbered :
      Numbered 0 expected_alerts × All (λ ea. should_be_ignored ea ≡ false) expected_alerts
  unfolding expected_alerts should_be_ignored
  new_expected_alerts-Numbered =
      let fit =
        loop_both-IsFit r12_resolved_alert r2_resolved_alert (nth 65) (nth 65 + 900000) _
          (λ t h. (ground arith, ground arith))
          (loop_both-IsFit r12_firing_alert r2_firing_alert (nth 44) (nth 65) _
            (λ t h. (ground arith, ground arith))
            (loop-IsFit r11_resolved_alert (nth 73) (nth 73 + 900000) _ (λ t h. ground arith)
              (loop-IsFit r11_firing_alert (nth 20) (nth 73) _ (λ t h. ground arith)
                nothing-IsFit))) in
      (fit.numbered, fit.wanted)
