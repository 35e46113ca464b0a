-- ===== src/AlertGenerator/ExpectedAlert/Ignoring.antt =====
-- When an expected alert may, and when it must, be left out: CanBeIgnored and ShouldBeIgnored.
use compliance.Base.{◌+◌, ◌*◌, ◌<◌, ◌≡◌, ◌≢◌, ◌⊎◌, ◌↔◌, true, false, arith}
use compliance.AlertGenerator.Api.{Time, minute}
use compliance.AlertGenerator.ExpectedAlert.{ExpectedAlert, max_rtt, can_be_ignored}

-- An instant of a later state leaves room for an alert when it lies before the last instant at
-- which the alert may still come.
abbrev WithinReach : {L : Type 0} → ExpectedAlert L → Time → Type 0
WithinReach ea t = (t ≢ 0) × (t ≢ ea.ts) × (t < ea.ts + (ea.time_tolerance + 2 * max_rtt))

-- The three reasons of CanBeIgnored.
abbrev pub MayBeAbsent : {L : Type 0} → ExpectedAlert L → Type 0
MayBeAbsent ea =
    ((ea.resolved ≡ true) × (ea.resolved_time + 15 * minute < ea.ts))
    ⊎ WithinReach ea ea.next_state
    ⊎ ((ea.resolved ≡ false) × WithinReach ea ea.resolved_time)

module _ {L : Type 0} (ea : ExpectedAlert L) where
  -- CanBeIgnored holds exactly when the alert is resolved for more than 15 minutes, or its next
  -- state, or for a firing alert its resolution, is set, differs from the alert's own time and
  -- comes before the alert's time plus the tolerance plus twice the request time.
  pub can_be_ignored-MayBeAbsent : (can_be_ignored ea ≡ true) ↔ MayBeAbsent ea
  unfolding can_be_ignored
  can_be_ignored-MayBeAbsent = ground arith
