-- ===== src/AlertGenerator/Cases/NewAlerts/Timeline.antt =====
-- The alerts that the case expects from the API, against the samples that it writes.
use compliance.Base.{
  ℕ, ◌+◌, ◌≡◌, refl, sym, subst, Bool, true, ◌&&◌, List, [], ◌∷◌, ◌++◌, none, String, In,
  In-append_left, In-append_right, arith,
}
use compliance.AlertGenerator.Api.{Time}
use compliance.AlertGenerator.Cases.Checks.{ApiAlert}
use compliance.AlertGenerator.Cases.Samples.{repeat_samples, samples_from, between}
use compliance.AlertGenerator.Cases.Common.{from_millis, when, nth}
use compliance.AlertGenerator.Cases.Common.Timeline.{
  AlertState, inactive, pending, firing, evaluate, Throughout, copies, copies-Throughout, In-when,
}
use compliance.AlertGenerator.Cases.NewAlerts.{
  for_samples, samples1, samples2, all_possible_states, r1_alert, r2_alert, exp_alerts,
}

-- The states of the two variants, for as long as either has samples. A variant whose samples have
-- ended, the last of them at most 10, stays inactive.
abbrev pub both : List AlertState → List AlertState → List (AlertState × AlertState)
both [] [] = []
both [] (t ∷ others) = (inactive, t) ∷ both [] others
both (s ∷ states) [] = (s, inactive) ∷ both states []
both (s ∷ states) (t ∷ others) = (s, t) ∷ both states others

module _ {L : Type 0} (from_strings : List String → L) (zero_time : ℕ) where
  -- What the API reports of a variant in a state.
  abbrev variant_alerts : String → Time → AlertState → List (ApiAlert L)
  variant_alerts variant active_at inactive = []
  variant_alerts variant active_at (pending _) =
      r1_alert from_strings variant "pending" active_at ∷ []
  variant_alerts variant active_at (firing _) =
      r1_alert from_strings variant "firing" active_at ∷ []

  -- What it reports of the second rule, whose alert fires at once when both variants fire.
  abbrev second_alerts : AlertState → AlertState → List (ApiAlert L)
  second_alerts (firing _) (firing _) =
      r2_alert from_strings (from_millis (zero_time + nth 44)) ∷ []
  second_alerts _ _ = []

  abbrev pub reported : AlertState × AlertState → List (ApiAlert L)
  reported (s, t) =
      variant_alerts "one" (from_millis (zero_time + nth 8)) s
      ++ variant_alerts "two" (from_millis (zero_time + nth 32)) t
      ++ second_alerts s t

  -- What the API reports at the instant is one of the expected lists.
  abbrev pub IsExpected : ℕ → AlertState × AlertState → Type 0
  IsExpected ts states = In (reported states) (exp_alerts from_strings zero_time ts)

module _ {L : Type 0} (from_strings : List String → L) (zero_time ts : ℕ) where
  -- What `append` adds under each of the five conditions.
  abbrev under : Bool → AlertState × AlertState → List (List (ApiAlert L))
  under b states = when b (reported from_strings zero_time states)

  abbrev if_nothing : List (List (ApiAlert L))
  if_nothing =
      let s = all_possible_states ts in
      under (s.r11_inactive && s.r12_inactive) (inactive, inactive)

  abbrev if_pending : List (List (ApiAlert L))
  if_pending =
      let s = all_possible_states ts in
      under (s.r11_pending && s.r12_inactive) (pending 11, inactive)

  abbrev if_firing : List (List (ApiAlert L))
  if_firing =
      let s = all_possible_states ts in under (s.r11_firing && s.r12_inactive) (firing 11, inactive)

  abbrev if_firing_pending : List (List (ApiAlert L))
  if_firing_pending =
      let s = all_possible_states ts in
      under (s.r11_firing && s.r12_pending) (firing 11, pending 11)

  abbrev if_all_firing : List (List (ApiAlert L))
  if_all_firing =
      let s = all_possible_states ts in under (s.r11_firing && s.r12_firing) (firing 11, firing 11)

  nothing_expected :
      let s = all_possible_states ts in
      s.r11_inactive && s.r12_inactive ≡ true
      → IsExpected from_strings zero_time ts (inactive, inactive)
  unfolding exp_alerts
  nothing_expected h =
      In-append_left if_nothing (if_pending ++ (if_firing ++ (if_firing_pending ++ if_all_firing)))
        (In-when _ _ h)

  pending_expected :
      let s = all_possible_states ts in
      s.r11_pending && s.r12_inactive ≡ true
      → IsExpected from_strings zero_time ts (pending 11, inactive)
  unfolding exp_alerts
  pending_expected h =
      In-append_right if_nothing (if_pending ++ (if_firing ++ (if_firing_pending ++ if_all_firing)))
        (In-append_left if_pending (if_firing ++ (if_firing_pending ++ if_all_firing))
          (In-when _ _ h))

  -- The last three lists stand behind the first two.
  expected_later :
      (alerts : List (ApiAlert L))
      → In alerts (if_firing ++ (if_firing_pending ++ if_all_firing))
      → In alerts (exp_alerts from_strings zero_time ts)
  unfolding exp_alerts
  expected_later alerts i =
      In-append_right if_nothing (if_pending ++ (if_firing ++ (if_firing_pending ++ if_all_firing)))
        (In-append_right if_pending (if_firing ++ (if_firing_pending ++ if_all_firing)) i)

  firing_expected :
      let s = all_possible_states ts in
      s.r11_firing && s.r12_inactive ≡ true
      → IsExpected from_strings zero_time ts (firing 11, inactive)
  firing_expected h =
      expected_later _
        (In-append_left if_firing (if_firing_pending ++ if_all_firing) (In-when _ _ h))

  firing_pending_expected :
      let s = all_possible_states ts in
      s.r11_firing && s.r12_pending ≡ true
      → IsExpected from_strings zero_time ts (firing 11, pending 11)
  firing_pending_expected h = expected_later _ (
      In-append_right if_firing (if_firing_pending ++ if_all_firing)
        (In-append_left if_firing_pending if_all_firing (In-when _ _ h)))

  all_firing_expected :
      let s = all_possible_states ts in
      s.r11_firing && s.r12_firing ≡ true
      → IsExpected from_strings zero_time ts (firing 11, firing 11)
  all_firing_expected h = expected_later _ (
      In-append_right if_firing (if_firing_pending ++ if_all_firing)
        (In-append_right if_firing_pending if_all_firing (In-when _ _ h)))

-- The states of both variants, from a sample on.
abbrev from_73 : List (AlertState × AlertState)
from_73 = copies 21 (inactive, inactive) []

abbrev from_65 : List (AlertState × AlertState)
from_65 = copies 8 (firing 11, inactive) from_73

abbrev from_44 : List (AlertState × AlertState)
from_44 = copies 21 (firing 11, firing 11) from_65

abbrev from_32 : List (AlertState × AlertState)
from_32 = copies 12 (firing 11, pending 11) from_44

abbrev from_20 : List (AlertState × AlertState)
from_20 = copies 12 (firing 11, inactive) from_32

abbrev from_8 : List (AlertState × AlertState)
from_8 = copies 12 (pending 11, inactive) from_20

abbrev states_of_variants : List (AlertState × AlertState)
states_of_variants = copies 8 (inactive, inactive) from_8

evaluate_variants :
    both (evaluate for_samples none samples1) (evaluate for_samples none samples2)
    ≡ states_of_variants
unfolding evaluate samples1 samples2 repeat_samples samples_from
evaluate_variants = refl

module _ {L : Type 0} (from_strings : List String → L) (zero_time : ℕ) where
  expected_states : Throughout (IsExpected from_strings zero_time) 0 states_of_variants
  unfolding all_possible_states between
  expected_states =
      let P = IsExpected from_strings zero_time in
      copies-Throughout P (inactive, inactive) from_8 8 0
        (λ j d a b p q. nothing_expected from_strings zero_time _ (ground arith))
        (copies-Throughout P (pending 11, inactive) from_20 12 8
          (λ j d a b p q. pending_expected from_strings zero_time _ (ground arith))
          (copies-Throughout P (firing 11, inactive) from_32 12 20
            (λ j d a b p q. firing_expected from_strings zero_time _ (ground arith))
            (copies-Throughout P (firing 11, pending 11) from_44 12 32
              (λ j d a b p q. firing_pending_expected from_strings zero_time _ (ground arith))
              (copies-Throughout P (firing 11, firing 11) from_65 21 44
                (λ j d a b p q. all_firing_expected from_strings zero_time _ (ground arith))
                (copies-Throughout P (firing 11, inactive) from_73 8 65
                  (λ j d a b p q. firing_expected from_strings zero_time _ (ground arith))
                  (copies-Throughout P (inactive, inactive) [] 21 73
                    (λ j d a b p q. nothing_expected from_strings zero_time _ (ground arith))
                    tt))))))

  -- The lists of alerts that the case expects follow from the samples that it writes. Each sample
  -- puts each variant into a state (inactive up to 10, pending, firing after 12 samples above 10),
  -- and what an API reports in these states, with the alert of the second rule when both
  -- variants fire, is one of the expected lists at every instant after the sample for as long as an
  -- API may show it, which is a sample interval and a group interval.
  pub evaluate-IsExpected :
      Throughout
        (IsExpected from_strings zero_time)
        0
        (both (evaluate for_samples none samples1) (evaluate for_samples none samples2))
  evaluate-IsExpected =
      subst (Throughout (IsExpected from_strings zero_time) 0) (sym evaluate_variants)
        expected_states
