-- ===== src/AlertGenerator/Tests/Alerts.antt =====
-- Runs of Matches, CanBeIgnored and ShouldBeIgnored (alert_generator/cases/expected_alert.go).
use compliance.Base.{◌≡◌, ◌↔◌, refl, true, none}
use compliance.AlertGenerator.ExpectedAlert.{matches, can_be_ignored}
use compliance.AlertGenerator.ExpectedAlert.Matching.{Accepts, matches-Accepts}
use compliance.AlertGenerator.ExpectedAlert.Ignoring.{MayBeAbsent, can_be_ignored-MayBeAbsent}
use compliance.AlertGenerator.Tests.{api, api-ComparesEqual, firing, sent, now}

matches-Accepts_example : (matches api firing now (sent 0) ≡ none) ↔ Accepts api firing now (sent 0)
matches-Accepts_example = matches-Accepts api api-ComparesEqual firing now (sent 0)

matches_accepts_sent : matches api firing now (sent 0) ≡ none
unfolding matches
matches_accepts_sent = refl

can_be_ignored-MayBeAbsent_example : (can_be_ignored firing ≡ true) ↔ MayBeAbsent firing
can_be_ignored-MayBeAbsent_example = can_be_ignored-MayBeAbsent firing
