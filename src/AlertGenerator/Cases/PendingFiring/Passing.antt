-- ===== src/AlertGenerator/Cases/PendingFiring/Passing.antt =====
-- CheckAlerts of alert_generator/cases/case_pending_firing_resolved.go on the answers of an API that
-- evaluates the rule correctly.
use compliance.Base.{
  ℕ, ◌+◌, ◌*◌, ◌≡◌, All, arith, sym, leb, ltb, Bool, true, false, ◌||◌, Bool-cases, inl, inr,
  if◌then◌else◌, List, [], ◌∷◌, ◌++◌, String, none, In, In-append_left, In-append_right,
}
use compliance.AlertGenerator.Api.{Time, second}
use compliance.AlertGenerator.Cases.Checks.{ApiAlert, CheckApi}
use compliance.AlertGenerator.Cases.Checks.Agreement.{AlertsAgree}
use compliance.AlertGenerator.Cases.Checks.Accepting.{IsDated}
use compliance.AlertGenerator.Cases.Samples.{between}
use compliance.AlertGenerator.Cases.Common.{rw_interval, group_interval, from_millis, when, nth}
use compliance.AlertGenerator.Cases.Common.Timeline.{
  AlertState, inactive, pending, firing, evaluate, Throughout, Throughout-map, In-when,
}
use compliance.AlertGenerator.Cases.Common.Passing.{expected-Throughout}
use compliance.AlertGenerator.Cases.PendingFiring.{
  for_samples, samples_to_remote_write, all_possible_states, api_alert, exp_alerts,
}
use compliance.AlertGenerator.Cases.PendingFiring.Timeline.{Allowed, evaluate-Allowed}
use compliance.AlertGenerator.Cases.PendingFiring.Checking.{check_alerts}

exp_alerts-IsDated :
    {L : Type 0} (from_strings : List String → L) (zero_time ts : ℕ)
    → All (All IsDated) (exp_alerts from_strings zero_time ts)
unfolding exp_alerts
exp_alerts-IsDated from_strings zero_time ts = ground arith

module _ {L : Type 0} (from_strings : List String → L) (zero_time ts : ℕ) where
  abbrev first_active : Time
  first_active = from_millis (zero_time + 8 * (1000 * rw_interval))

  abbrev active_again : Time
  active_again = from_millis (zero_time + 89 * (1000 * rw_interval))

  -- The alert becomes active at the 8th sample and again at the 89th one.
  abbrev active_at : Time
  active_at = if ltb ts (nth 80) then first_active else active_again

  -- What an API reports in a state; the samples of an active alert are 11, 15 and 19.
  abbrev pub reported : AlertState → List (ApiAlert L)
  reported inactive = []
  reported (pending v) =
      if leb v 11
      then api_alert from_strings "pending" "11" "The value is 11 11" first_active ∷ []
      else api_alert from_strings "pending" "15" "The value is 15 15" active_at ∷ []
  reported (firing v) =
      if leb v 15
      then api_alert from_strings "firing" "15" "The value is 15 15" active_at ∷ []
      else api_alert from_strings "firing" "19" "The value is 19 19" first_active ∷ []

  abbrev active_if : Bool → Time
  active_if again = if again then active_again else first_active

  -- What `append` adds under each of the five conditions.
  abbrev if_inactive : List (List (ApiAlert L))
  if_inactive = when (all_possible_states ts).can_be_inactive []

  abbrev if_pending1 : List (List (ApiAlert L))
  if_pending1 =
      when (all_possible_states ts).can_be_pending1
        (api_alert from_strings "pending" "11" "The value is 11 11" first_active ∷ [])

  abbrev if_pending2 : List (List (ApiAlert L))
  if_pending2 =
      let s = all_possible_states ts in
      when (s.can_be_pending2 || s.pending_again) (
        api_alert from_strings "pending" "15" "The value is 15 15" (active_if s.pending_again) ∷ [])

  abbrev if_firing1 : List (List (ApiAlert L))
  if_firing1 =
      let s = all_possible_states ts in
      when (s.can_be_firing1 || s.firing_again)
        (api_alert from_strings "firing" "15" "The value is 15 15" (active_if s.firing_again) ∷ [])

  abbrev if_firing2 : List (List (ApiAlert L))
  if_firing2 =
      when (all_possible_states ts).can_be_firing2
        (api_alert from_strings "firing" "19" "The value is 19 19" first_active ∷ [])

  abbrev pub IsExpected : AlertState → Type 0
  IsExpected s = In (reported s) (exp_alerts from_strings zero_time ts)

  -- The last three lists stand behind the first two.
  expected_later :
      (alerts : List (ApiAlert L))
      → In alerts (if_pending2 ++ (if_firing1 ++ if_firing2))
      → In alerts (exp_alerts from_strings zero_time ts)
  unfolding exp_alerts
  expected_later alerts i =
      In-append_right if_inactive (if_pending1 ++ (if_pending2 ++ (if_firing1 ++ if_firing2)))
        (In-append_right if_pending1 (if_pending2 ++ (if_firing1 ++ if_firing2)) i)

  nothing_expected : (all_possible_states ts).can_be_inactive ≡ true → IsExpected inactive
  unfolding exp_alerts
  nothing_expected h =
      In-append_left if_inactive (if_pending1 ++ (if_pending2 ++ (if_firing1 ++ if_firing2)))
        (In-when _ _ h)

  pending1_expected :
      (v : ℕ)
      → leb v 11 ≡ true
      → (all_possible_states ts).can_be_pending1 ≡ true
      → IsExpected (pending v)
  unfolding exp_alerts
  pending1_expected v e h = rw e (
      In-append_right if_inactive (if_pending1 ++ (if_pending2 ++ (if_firing1 ++ if_firing2)))
        (In-append_left if_pending1 (if_pending2 ++ (if_firing1 ++ if_firing2)) (In-when _ _ h)))

  -- The alert is active again only well after the 80th sample.
  pending_active_at :
      let s = all_possible_states ts in
      s.can_be_pending2 || s.pending_again ≡ true → active_if s.pending_again ≡ active_at
  unfolding all_possible_states between
  pending_active_at h = ground arith

  firing_active_at :
      let s = all_possible_states ts in
      s.can_be_firing1 || s.firing_again ≡ true → active_if s.firing_again ≡ active_at
  unfolding all_possible_states between
  firing_active_at h = ground arith

  pending2_expected :
      let s = all_possible_states ts in
      (v : ℕ)
      → leb v 11 ≡ false
      → s.can_be_pending2 || s.pending_again ≡ true
      → IsExpected (pending v)
  pending2_expected v e h =
      rw (e, sym (pending_active_at h))
        (expected_later _ (In-append_left if_pending2 (if_firing1 ++ if_firing2) (In-when _ _ h)))

  firing1_expected :
      let s = all_possible_states ts in
      (v : ℕ) → leb v 15 ≡ true → s.can_be_firing1 || s.firing_again ≡ true → IsExpected (firing v)
  firing1_expected v e h =
      rw (e, sym (firing_active_at h))
        (expected_later _ (
          In-append_right if_pending2 (if_firing1 ++ if_firing2)
            (In-append_left if_firing1 if_firing2 (In-when _ _ h))))

  firing2_expected :
      (v : ℕ)
      → leb v 15 ≡ false
      → (all_possible_states ts).can_be_firing2 ≡ true
      → IsExpected (firing v)
  firing2_expected v e h = rw e (
      expected_later _ (
        In-append_right if_pending2 (if_firing1 ++ if_firing2)
          (In-append_right if_firing1 if_firing2 (In-when _ _ h))))

  Allowed-IsExpected : (s : AlertState) → Allowed ts s → IsExpected s
  Allowed-IsExpected inactive h = nothing_expected h
  Allowed-IsExpected (pending v) h = elim (Bool-cases (leb v 11)) [
    | inl e ↦ pending1_expected v e (ground (arith, e, h))
    | inr e ↦ pending2_expected v e (ground (arith, e, h))
  ]
  Allowed-IsExpected (firing v) h = elim (Bool-cases (leb v 15)) [
    | inl e ↦ firing1_expected v e (ground (arith, e, h))
    | inr e ↦ firing2_expected v e (ground (arith, e, h))
  ]

module _ {L : Type 0} (api : CheckApi L ℕ) (from_strings : List String → L) (zero_time : ℕ) where
  -- So long after its start, the case accepts every answer that agrees with what an API reports
  -- in the state.
  abbrev pub Accepts : ℕ → AlertState → Type 0
  Accepts ts s =
      (act : List (ApiAlert L))
      → AlertsAgree api (group_interval * second) act (reported from_strings zero_time ts s)
      → check_alerts api from_strings zero_time (zero_time + ts) act ≡ none

  -- An API that evaluates the rule correctly passes CheckAlerts: what the rule makes of the samples
  -- that the case writes gives its state at each sample (inactive up to 10, pending, firing after 24
  -- samples above 10, with the value), and CheckAlerts accepts, at every instant after the sample
  -- for a sample interval and a group interval, each answer that agrees with the alert of the state,
  -- active at the 8th sample and again at the 89th one. An answer agrees when it has as many alerts
  -- and, both sorted by labels, its alerts have the labels, annotations, states and values of the
  -- expected ones, and each ActiveAt comes within the group interval and two request times after the
  -- expected one.
  pub pending_firing_passes :
      Throughout Accepts 0 (evaluate for_samples none samples_to_remote_write)
  unfolding check_alerts
  pending_firing_passes =
      expected-Throughout api zero_time (exp_alerts from_strings zero_time)
        (reported from_strings zero_time) (exp_alerts-IsDated from_strings zero_time) _
        (Throughout-map Allowed (IsExpected from_strings zero_time)
          (Allowed-IsExpected from_strings zero_time) 0 _ evaluate-Allowed)
