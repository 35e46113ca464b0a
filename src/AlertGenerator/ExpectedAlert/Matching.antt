-- ===== src/AlertGenerator/ExpectedAlert/Matching.antt =====
-- What an alert has to look like to satisfy an expectation: Matches.
use compliance.Base.{◌+◌, ◌*◌, ◌<◌, ◌≡◌, ◌⊎◌, ◌↔◌, true, none, arith, str_eq_iff}
use compliance.AlertGenerator.Api.{Time, AlertApi, ComparesEqual, Alert}
use compliance.AlertGenerator.ExpectedAlert.{ExpectedAlert, max_rtt, matches, expected_ends_at}

-- Strictly between `exp` and `exp` plus the alert's tolerance.
abbrev Within : {L : Type 0} → ExpectedAlert L → Time → Time → Type 0
Within ea exp act = (exp < act) × (act < exp + ea.time_tolerance)

pub record Accepts {L : Type 0} (api : AlertApi L) (ea : ExpectedAlert L) (now : Time) (a : Alert L)
    : Type 0 where
  pub same_labels : ea.alert.labels ≡ a.labels
  pub same_annotations : ea.alert.annotations ≡ a.annotations
  pub after : ea.ts < now
  pub in_time : now < ea.ts + (ea.time_tolerance + 2 * max_rtt)
  pub starts : (a.starts_at ≡ 0) ⊎ Within ea ea.alert.starts_at a.starts_at
  pub ends :
      (a.ends_at ≡ 0)
      ⊎ Within ea (expected_ends_at ea now) a.ends_at
      ⊎ Within ea (expected_ends_at ea now) (a.ends_at + 2 * max_rtt)
  pub url : (a.generator_url ≡ "") ⊎ (api.url_parses a.generator_url ≡ true)

module _ {L : Type 0} (api : AlertApi L) (compares : ComparesEqual api) (ea : ExpectedAlert L) where
  -- Matches returns nil exactly for an alert with the expected labels and annotations that is
  -- received after the expected time and within the tolerance plus twice the request time, whose
  -- StartsAt and EndsAt are unset or within the tolerance (EndsAt also when it is two request
  -- times early), and whose generator URL is empty or parses.
  pub matches-Accepts :
      (now : Time) (a : Alert L) → (matches api ea now a ≡ none) ↔ Accepts api ea now a
  unfolding matches
  matches-Accepts now a = ground (
    arith,
    compares ea.alert.labels a.labels,
    compares ea.alert.annotations a.annotations,
    str_eq_iff a.generator_url "",
  )
