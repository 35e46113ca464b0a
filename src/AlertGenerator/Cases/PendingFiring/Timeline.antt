-- ===== src/AlertGenerator/Cases/PendingFiring/Timeline.antt =====
-- The states that the case allows, against the samples that it writes.
use compliance.Base.{ℕ, ◌≡◌, refl, sym, subst, leb, Bool, true, false, ◌||◌, List, [], none, arith}
use compliance.AlertGenerator.Cases.Samples.{repeat_samples, samples_from, between}
use compliance.AlertGenerator.Cases.Common.Timeline.{
  AlertState, inactive, pending, firing, evaluate, Throughout, copies, copies-Throughout,
}
use compliance.AlertGenerator.Cases.PendingFiring.{
  for_samples, samples_to_remote_write, States, all_possible_states,
}

-- Whether the case allows a state.
abbrev pub allows : States → AlertState → Bool
allows s inactive = s.can_be_inactive
allows s (pending v) = elim (leb v 11) [
  | true ↦ s.can_be_pending1
  | false ↦ s.can_be_pending2 || s.pending_again
]
allows s (firing v) = elim (leb v 15) [
  | true ↦ s.can_be_firing1 || s.firing_again
  | false ↦ s.can_be_firing2
]

-- The case allows the state at the instant.
abbrev pub Allowed : ℕ → AlertState → Type 0
Allowed ts s = allows (all_possible_states ts) s ≡ true

-- The states, from a sample on.
abbrev from_134 : List AlertState
from_134 = copies 16 inactive []

abbrev from_113 : List AlertState
from_113 = copies 21 (firing 15) from_134

abbrev from_89 : List AlertState
from_89 = copies 24 (pending 15) from_113

abbrev from_69 : List AlertState
from_69 = copies 20 inactive from_89

abbrev from_53 : List AlertState
from_53 = copies 16 (firing 19) from_69

abbrev from_32 : List AlertState
from_32 = copies 21 (firing 15) from_53

abbrev from_21 : List AlertState
from_21 = copies 11 (pending 15) from_32

abbrev from_8 : List AlertState
from_8 = copies 13 (pending 11) from_21

abbrev expected_states : List AlertState
expected_states = copies 8 inactive from_8

evaluate_samples : evaluate for_samples none samples_to_remote_write ≡ expected_states
unfolding evaluate samples_to_remote_write repeat_samples samples_from
evaluate_samples = refl

Allowed-states : Throughout Allowed 0 expected_states
unfolding all_possible_states between
Allowed-states =
    copies-Throughout Allowed inactive from_8 8 0 (λ j d a b p q. ground arith)
      (copies-Throughout Allowed (pending 11) from_21 13 8 (λ j d a b p q. ground arith)
        (copies-Throughout Allowed (pending 15) from_32 11 21 (λ j d a b p q. ground arith)
          (copies-Throughout Allowed (firing 15) from_53 21 32 (λ j d a b p q. ground arith)
            (copies-Throughout Allowed (firing 19) from_69 16 53 (λ j d a b p q. ground arith)
              (copies-Throughout Allowed inactive from_89 20 69 (λ j d a b p q. ground arith)
                (copies-Throughout Allowed (pending 15) from_113 24 89 (λ j d a b p q. ground arith)
                  (copies-Throughout Allowed (firing 15) from_134 21 113
                    (λ j d a b p q. ground arith)
                    (copies-Throughout Allowed inactive [] 16 134 (λ j d a b p q. ground arith)
                      tt))))))))

-- The states that the case allows follow from the samples that it writes: what the rule makes of
-- each sample (inactive up to 10, pending, firing after 24 samples above 10, with the value) is
-- allowed from the sample's instant on, that excluded, for as long as an API may show it, which is
-- a sample interval and a group interval.
pub evaluate-Allowed : Throughout Allowed 0 (evaluate for_samples none samples_to_remote_write)
evaluate-Allowed = subst (Throughout Allowed 0) (sym evaluate_samples) Allowed-states
