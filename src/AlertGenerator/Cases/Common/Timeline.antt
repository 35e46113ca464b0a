-- ===== src/AlertGenerator/Cases/Common/Timeline.antt =====
-- What a rule makes of samples, and statements on all the time that a sample may show.
use compliance.Base.{
  In, here, ℕ, zero, suc, ◌+◌, ◌*◌, ◌≤◌, ◌<◌, ◌≡◌, subst, leb, Bool, true, false, List, [], ◌∷◌,
  Option, none, some, if◌then◌else◌, arith,
}
use compliance.AlertGenerator.Cases.Samples.{ProtoSample}
use compliance.AlertGenerator.Cases.Common.{rw_interval, group_interval, when}

-- What a rule `> 10` with a `for` of so many samples makes of a sequence of samples: an alert with
-- its value. `since` counts the samples since the alert became active.
pub data AlertState : Type 0 where
  inactive : AlertState
  pending firing : ℕ → AlertState

abbrev active_state : ℕ → ℕ → ℕ → AlertState
active_state for_samples n v = if leb for_samples n then firing v else pending v

abbrev elapsed : Option ℕ → ℕ
elapsed none = 0
elapsed (some n) = suc n

unfoldable pub evaluate : ℕ → Option ℕ → List (ProtoSample ℕ) → List AlertState
evaluate for_samples since [] = []
evaluate for_samples since (s ∷ samples) =
    if leb s.value 10
    then inactive ∷ evaluate for_samples none samples
    else active_state for_samples (elapsed since) s.value
      ∷ evaluate for_samples (some (elapsed since)) samples

-- From sample `k` on, `P` holds of the state of each sample at every instant at which an API may show
-- it: the rule may read the sample for a sample interval, and keeps the state for a group interval.
module _ {X : Type 0} (P : ℕ → X → Type 0) where
  abbrev pub Throughout : ℕ → List X → Type 0
  Throughout k [] = Unit {0}
  Throughout k (s ∷ states) =
      ((d : ℕ)
        → 0 < d
        → d ≤ 1000 * (rw_interval + group_interval)
        → P (k * (1000 * rw_interval) + d) s)
      × Throughout (suc k) states

abbrev pub copies : {X : Type 0} → ℕ → X → List X → List X
copies zero s rest = rest
copies (suc n) s rest = s ∷ copies n s rest

pub copies-Throughout :
    {X : Type 0} (P : ℕ → X → Type 0) (s : X) (rest : List X) (n k : ℕ)
    → ((j d : ℕ)
        → k ≤ j
        → j < k + n
        → 0 < d
        → d ≤ 1000 * (rw_interval + group_interval)
        → P (j * (1000 * rw_interval) + d) s)
    → Throughout P (k + n) rest
    → Throughout P k (copies n s rest)
copies-Throughout P s rest zero k h r = subst (λ i. Throughout P i rest) (omega arith) r
copies-Throughout P s rest (suc n) k h r = (
  (λ d p q. h k d (omega arith) (omega arith) p q),
  copies-Throughout P s rest n (suc k) (λ j d a b. h j d (omega arith) (omega arith))
      (subst (λ i. Throughout P i rest) (omega arith) r),
)

-- A statement that follows at each instant and state follows throughout.
pub Throughout-map :
    {X : Type 0} (P Q : ℕ → X → Type 0)
    → ((ts : ℕ) (s : X) → P ts s → Q ts s)
    → (k : ℕ) (states : List X) → Throughout P k states
    → Throughout Q k states
Throughout-map P Q step k [] h = tt
Throughout-map P Q step k (s ∷ states) h =
    ((λ d p q. step _ s (h.0 d p q)), Throughout-map P Q step (suc k) states h.1)

pub In-when : {X : Type 0} (b : Bool) (x : X) → b ≡ true → In x (when b x)
In-when true x h = here
In-when false x h = cc
