-- ===== src/AlertGenerator/Cases/PendingResolved/Timeline.antt =====
-- The alerts that the case expects from the API, against the samples that it writes.
use compliance.Base.{
  ℕ, ◌+◌, ◌≡◌, refl, sym, subst, true, List, [], ◌∷◌, none, String, In, In-append_left,
  In-append_right, arith,
}
use compliance.AlertGenerator.Cases.Checks.{ApiAlert}
use compliance.AlertGenerator.Cases.Samples.{repeat_samples, samples_from, between}
use compliance.AlertGenerator.Cases.Common.{from_millis, when, nth}
use compliance.AlertGenerator.Cases.Common.Timeline.{
  AlertState, inactive, pending, firing, evaluate, Throughout, copies, copies-Throughout, In-when,
}
use compliance.AlertGenerator.Cases.PendingResolved.{
  for_samples, samples, all_possible_states, pending_alert, exp_alerts,
}

module _ {L : Type 0} (from_strings : List String → L) (zero_time : ℕ) where
  abbrev alert : ApiAlert L
  alert = pending_alert from_strings (from_millis (zero_time + nth 8))

  -- What an API reports in a state of the first rule; the second rule, above 99, is never active.
  abbrev pub reported : AlertState → List (ApiAlert L)
  reported inactive = []
  reported (pending _) = alert ∷ []
  reported (firing _) = record alert { state = "firing" } ∷ []

  abbrev pub IsExpected : ℕ → AlertState → Type 0
  IsExpected ts s = In (reported s) (exp_alerts from_strings zero_time ts)

  nothing_expected :
      (ts : ℕ) → (all_possible_states ts).can_be_inactive ≡ true → IsExpected ts inactive
  unfolding exp_alerts
  nothing_expected ts h =
      In-append_left (when (all_possible_states ts).can_be_inactive [])
        (when (all_possible_states ts).can_be_pending _) (In-when _ _ h)

  pending_expected :
      (ts v : ℕ) → (all_possible_states ts).can_be_pending ≡ true → IsExpected ts (pending v)
  unfolding exp_alerts
  pending_expected ts v h =
      In-append_right (when (all_possible_states ts).can_be_inactive [])
        (when (all_possible_states ts).can_be_pending (alert ∷ [])) (In-when _ _ h)

-- The states, from a sample on.
abbrev from_19 : List AlertState
from_19 = copies 1 inactive []

abbrev from_8 : List AlertState
from_8 = copies 11 (pending 11) from_19

abbrev states_of_samples : List AlertState
states_of_samples = copies 8 inactive from_8

evaluate_samples : evaluate for_samples none samples ≡ states_of_samples
unfolding evaluate samples repeat_samples samples_from
evaluate_samples = refl

module _ {L : Type 0} (from_strings : List String → L) (zero_time : ℕ) where
  expected_states : Throughout (IsExpected from_strings zero_time) 0 states_of_samples
  unfolding all_possible_states between
  expected_states =
      let P = IsExpected from_strings zero_time in
      copies-Throughout P inactive from_8 8 0
        (λ j d a b p q. nothing_expected from_strings zero_time _ (ground arith))
        (copies-Throughout P (pending 11) from_19 11 8
          (λ j d a b p q. pending_expected from_strings zero_time _ 11 (ground arith))
          (copies-Throughout P inactive [] 1 19
            (λ j d a b p q. nothing_expected from_strings zero_time _ (ground arith)) tt))

  -- The lists of alerts that the case expects follow from the samples that it writes: what an API reports in the state of each sample is one of the
  -- expected lists at every instant after the sample for as long as an API may show it, which is a
  -- sample interval and a group interval.
  pub evaluate-IsExpected_pending :
      Throughout (IsExpected from_strings zero_time) 0 (evaluate for_samples none samples)
  evaluate-IsExpected_pending =
      subst (Throughout (IsExpected from_strings zero_time) 0) (sym evaluate_samples)
        expected_states
