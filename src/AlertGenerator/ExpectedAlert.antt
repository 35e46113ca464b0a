-- ===== src/AlertGenerator/ExpectedAlert.antt =====
-- alert_generator/cases/expected_alert.go, and the constants of cases/interface.go.
-- A test against `t.Add(-d)` adds `d` to the other side, since instants are natural numbers. The
-- errors of `Matches` are values that name the check which failed, without the formatted text.
pub mod Ignoring
pub mod Matching
use compliance.Base.{
  ℕ, ◌+◌, ◌*◌, ◌==◌, ltb, str_eq, if◌then◌else◌, Bool, not, ◌&&◌, ◌||◌, Option, none, some,
}
use compliance.AlertGenerator.Api.{Time, Duration, second, minute, AlertApi, is_eq, Alert}

abbrev pub resend_delay : Duration
resend_delay = minute

abbrev pub max_rtt : Duration
max_rtt = 5 * second

pub record ExpectedAlert (L : Type 0) : Type 0 where
  pub ordering_id : ℕ
  pub time_tolerance : Duration
  pub ts : Time
  pub next_state : Time
  pub resolved : Bool
  pub resend : Bool
  pub resolved_time : Time
  pub ends_at_delta : Duration
  pub alert : Alert L

pub data MatchError : Type 0 where
  labels_mismatch annotations_mismatch little_late starts_at_mismatch : MatchError
  ends_at_mismatch bad_generator_url : MatchError

module _ {L : Type 0} where
  -- matchesWithinTolerance.
  unfoldable matches_within_tolerance : ExpectedAlert L → Time → Time → Bool
  matches_within_tolerance ea exp act = ltb exp act && ltb act (exp + ea.time_tolerance)

  -- matchesWithinToleranceAndTwiceSendDelay.
  unfoldable matches_within_twice_send_delay : ExpectedAlert L → Time → Time → Bool
  matches_within_twice_send_delay ea exp act =
      ltb exp act && ltb act (exp + (ea.time_tolerance + 2 * max_rtt))

  -- timeCanBeIgnored.
  unfoldable time_can_be_ignored : ExpectedAlert L → Time → Bool
  unfolding matches_within_twice_send_delay
  time_can_be_ignored ea t = matches_within_twice_send_delay ea ea.ts t || ltb t ea.ts

  -- CanBeIgnored. `Ts.Sub(ResolvedTime) > 15m` has the subtraction on the other side.
  unfoldable pub can_be_ignored : ExpectedAlert L → Bool
  unfolding time_can_be_ignored
  can_be_ignored ea =
      (ea.resolved && ltb (ea.resolved_time + 15 * minute) ea.ts)
      || (not (ea.next_state == 0) && time_can_be_ignored ea ea.next_state)
      || (not (ea.resolved_time == 0)
          && (not ea.resolved && time_can_be_ignored ea ea.resolved_time))

  -- ShouldBeIgnored.
  unfoldable pub should_be_ignored : ExpectedAlert L → Bool
  should_be_ignored ea =
      (ea.resolved && ltb (ea.resolved_time + 15 * minute) ea.ts)
      || (not (ea.next_state == 0) && ltb ea.next_state ea.ts)

  -- The EndsAt that `Matches` expects at `now`.
  abbrev expected_ends_at : ExpectedAlert L → Time → Time
  expected_ends_at ea now = if ea.resolved then ea.resolved_time else now + ea.ends_at_delta

  -- The test by which `Matches` refuses an EndsAt.
  unfoldable ends_at_refused : ExpectedAlert L → Time → Time → Bool
  unfolding matches_within_tolerance
  ends_at_refused ea now ends_at =
      let exp = expected_ends_at ea now in
      let late = matches_within_tolerance ea exp (ends_at + 2 * max_rtt) in
      not (matches_within_tolerance ea exp ends_at || late) && (ea.resolved || not late)

-- Matches.
unfoldable pub matches :
    {L : Type 0} → AlertApi L → ExpectedAlert L → Time → Alert L → Option MatchError
unfolding matches_within_tolerance matches_within_twice_send_delay ends_at_refused
matches api ea now a =
    if not (is_eq (api.compare_labels ea.alert.labels a.labels))
    then some labels_mismatch
    else if not (is_eq (api.compare_labels ea.alert.annotations a.annotations))
    then some annotations_mismatch
    else if not (matches_within_twice_send_delay ea ea.ts now)
    then some little_late
    else if not (a.starts_at == 0)
        && not (matches_within_tolerance ea ea.alert.starts_at a.starts_at)
    then some starts_at_mismatch
    else if not (a.ends_at == 0) && ends_at_refused ea now a.ends_at
    then some ends_at_mismatch
    else if not (str_eq a.generator_url "") && not (api.url_parses a.generator_url)
    then some bad_generator_url
    else none
