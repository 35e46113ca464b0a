-- ===== src/AlertGenerator/Cases/ZeroFor/Timeline.antt =====
-- The alerts that the case expects from the API, against the samples that it writes.
use compliance.Base.{
  ℕ, ◌+◌, ◌*◌, ◌≤◌, ◌<◌, ◌≡◌, refl, sym, subst, true, false, ◌&&◌, ltb, leb, inl, inr, Bool-cases,
  if◌then◌else◌, List, [], ◌∷◌, ◌++◌, none, String, In, In-append_left, In-append_right, arith,
}
use compliance.AlertGenerator.Cases.Checks.{ApiAlert}
use compliance.AlertGenerator.Cases.Samples.{repeat_samples, samples_from, between}
use compliance.AlertGenerator.Cases.Common.{group_interval, from_millis, when, nth}
use compliance.AlertGenerator.Cases.Common.Timeline.{
  AlertState, inactive, pending, firing, evaluate, Throughout, copies, copies-Throughout, In-when,
}
use compliance.AlertGenerator.Cases.ZeroFor.{
  samples, all_possible_states, first_query_test, second_query_test, zf_alert, sf_alert, exp_alerts,
}

module _ {L : Type 0} (from_strings : List String → L) (zero_time : ℕ) where
  -- The alerts while the samples are 15, with the second rule in the given state, and while they are
  -- 11, which is not above the 13 of the second rule.
  abbrev while_15 : String → List (ApiAlert L)
  while_15 sf_state =
      zf_alert from_strings first_query_test "15" (from_millis (zero_time + nth 8))
      ∷ sf_alert from_strings sf_state (from_millis (zero_time + nth 8))
      ∷ []

  abbrev while_11 : List (ApiAlert L)
  while_11 = zf_alert from_strings second_query_test "11" (from_millis (zero_time + nth 93)) ∷ []

  -- What the API reports at `ts` in a state of the first rule, when `first` is the instant of the
  -- first evaluation that finds the rules active. The second rule is pending until its second
  -- evaluation, a group interval later, and fires then.
  abbrev pub reported : ℕ → ℕ → AlertState → List (ApiAlert L)
  reported first ts inactive = []
  reported first ts (pending _) = []
  reported first ts (firing v) =
      if leb v 13
      then while_11
      else if ltb ts (first + 1000 * group_interval)
      then while_15 "pending"
      else while_15 "firing"

  abbrev pub IsExpected : ℕ → ℕ → AlertState → Type 0
  IsExpected first ts s = In (reported first ts s) (exp_alerts from_strings zero_time ts)

module _ {L : Type 0} (from_strings : List String → L) (zero_time first ts : ℕ) where
  -- What `append` adds under each of the four conditions.
  abbrev if_inactive : List (List (ApiAlert L))
  if_inactive = when (all_possible_states ts).can_be_inactive []

  abbrev if_pending : List (List (ApiAlert L))
  if_pending =
      let s = all_possible_states ts in
      when (s.zf_firing && s.sf_pending) (while_15 from_strings zero_time "pending")

  abbrev if_firing : List (List (ApiAlert L))
  if_firing =
      let s = all_possible_states ts in
      when (s.zf_firing && s.sf_firing) (while_15 from_strings zero_time "firing")

  abbrev if_again : List (List (ApiAlert L))
  if_again = when (all_possible_states ts).zf_firing_again (while_11 from_strings zero_time)

  nothing_expected :
      (all_possible_states ts).can_be_inactive ≡ true
      → IsExpected from_strings zero_time first ts inactive
  unfolding exp_alerts
  nothing_expected h =
      In-append_left if_inactive (if_pending ++ (if_firing ++ if_again)) (In-when _ _ h)

  -- The last three lists stand behind the first one.
  expected_later :
      (alerts : List (ApiAlert L))
      → In alerts (if_pending ++ (if_firing ++ if_again))
      → In alerts (exp_alerts from_strings zero_time ts)
  unfolding exp_alerts
  expected_later alerts i = In-append_right if_inactive (if_pending ++ (if_firing ++ if_again)) i

  active_expected :
      let s = all_possible_states ts in
      (ltb ts (first + 1000 * group_interval) ≡ true → s.zf_firing && s.sf_pending ≡ true)
      → (ltb ts (first + 1000 * group_interval) ≡ false → s.zf_firing && s.sf_firing ≡ true)
      → IsExpected from_strings zero_time first ts (firing 15)
  active_expected h k = elim (Bool-cases (ltb ts (first + 1000 * group_interval))) [
    | inl e ↦
        rw e
          (expected_later _ (In-append_left if_pending (if_firing ++ if_again) (In-when _ _ (h e))))
    | inr e ↦ rw e (
        expected_later _ (
          In-append_right if_pending (if_firing ++ if_again)
            (In-append_left if_firing if_again (In-when _ _ (k e)))))
  ]

  again_expected :
      (all_possible_states ts).zf_firing_again ≡ true
      → IsExpected from_strings zero_time first ts (firing 11)
  again_expected h = expected_later _ (
      In-append_right if_pending (if_firing ++ if_again)
        (In-append_right if_firing if_again (In-when _ _ h)))

-- The states of the first rule, from a sample on.
abbrev from_106 : List AlertState
from_106 = copies 1 inactive []

abbrev from_93 : List AlertState
from_93 = copies 13 (firing 11) from_106

abbrev from_21 : List AlertState
from_21 = copies 72 inactive from_93

abbrev from_8 : List AlertState
from_8 = copies 13 (firing 15) from_21

abbrev states_of_samples : List AlertState
states_of_samples = copies 8 inactive from_8

evaluate_samples : evaluate 0 none samples ≡ states_of_samples
unfolding evaluate samples repeat_samples samples_from
evaluate_samples = refl

module _ {L : Type 0} (from_strings : List String → L) (zero_time first : ℕ) (after : nth 8 < first)
    (soon : first ≤ nth 8 + 1000 * group_interval) where
  expected_states : Throughout (IsExpected from_strings zero_time first) 0 states_of_samples
  unfolding all_possible_states between
  expected_states =
      let P = IsExpected from_strings zero_time first in
      copies-Throughout P inactive from_8 8 0
        (λ j d a b p q. nothing_expected from_strings zero_time first _ (ground arith))
        (copies-Throughout P (firing 15) from_21 13 8
          (λ j d a b p q.
            active_expected from_strings zero_time first _ (λ e. ground arith) (λ e. ground arith))
          (copies-Throughout P inactive from_93 72 21
            (λ j d a b p q. nothing_expected from_strings zero_time first _ (ground arith))
            (copies-Throughout P (firing 11) from_106 13 93
              (λ j d a b p q. again_expected from_strings zero_time first _ (ground arith))
              (copies-Throughout P inactive [] 1 106
                (λ j d a b p q. nothing_expected from_strings zero_time first _ (ground arith))
                tt))))

  -- The lists of alerts that the case expects follow from the samples that it writes, when the first
  -- evaluation that finds the rules active comes within a group interval after the 8th sample. What
  -- an API reports in the state of each sample is one of the expected lists at every instant after the
  -- sample for as long as an API may show it, which is a sample interval and a group interval: the
  -- first rule fires at once, the second one is pending until a group interval after that evaluation
  -- and fires from then on, and it is not active at the samples of 11.
  pub evaluate-IsExpected_for :
      Throughout (IsExpected from_strings zero_time first) 0 (evaluate 0 none samples)
  evaluate-IsExpected_for =
      subst (Throughout (IsExpected from_strings zero_time first) 0) (sym evaluate_samples)
        expected_states
