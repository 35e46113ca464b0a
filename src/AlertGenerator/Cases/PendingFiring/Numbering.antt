-- ===== src/AlertGenerator/Cases/PendingFiring/Numbering.antt =====
-- What ExpectedAlerts of the case guarantees to the alert server.
use compliance.Base.{ℕ, ◌+◌, ◌≡◌, false, String, List, All, arith}
use compliance.AlertGenerator.ExpectedAlert.{should_be_ignored}
use compliance.AlertGenerator.Cases.Common.{nth}
use compliance.AlertGenerator.Cases.Common.Numbering.{Numbered, loop-IsFit, nothing-IsFit}
use compliance.AlertGenerator.Cases.PendingFiring.Sending.{
  firing_alert, changed_alert, resolved_alert, firing_again_alert, resolved_again_alert,
  expected_alerts,
}

module _ {L : Type 0} (from_strings : List String → L) (zero_time : ℕ) where
  -- The alerts that the case expects, whatever the start of the case, are numbered 1, 2, 3 and so on
  -- by OrderingID in the order of the list, and the server drops none of them at once: each comes
  -- before its next state and, if resolved, within 15 minutes of its resolution.
  pub expected_alerts-Numbered :
      let eas = expected_alerts from_strings zero_time in
      Numbered 0 eas × All (λ ea. should_be_ignored ea ≡ false) eas
  unfolding expected_alerts should_be_ignored
  expected_alerts-Numbered =
      let fit =
        loop-IsFit (resolved_again_alert from_strings zero_time) (nth 134) (nth 134 + 900000) _
          (λ t h. ground arith)
          (loop-IsFit (firing_again_alert from_strings zero_time) (nth 113) (nth 134) _
            (λ t h. ground arith)
            (loop-IsFit (resolved_alert from_strings zero_time) (nth 69) (nth 89) _
              (λ t h. ground arith)
              (loop-IsFit (changed_alert from_strings zero_time) (nth 53) (nth 69) _
                (λ t h. ground arith)
                (loop-IsFit (firing_alert from_strings zero_time) (nth 32) (nth 53) _
                  (λ t h. ground arith) nothing-IsFit)))) in
      (fit.numbered, fit.wanted)
