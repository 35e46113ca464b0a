-- ===== src/PromQl/Comparer/FirstSteps.antt =====
-- What Compare of promql/comparer/comparer.go drops from the reference result.
use compliance.Base.{
  ℕ, zero, suc, ◌+◌, ◌*◌, ◌≡◌, refl, sym, ap, false, inl, inr, Bool-cases, leb, if◌then◌else◌, List,
  [], ◌∷◌, some, none, map, count_if,
}
use compliance.PromQl.Time.{Instant, millisecond}
use compliance.PromQl.Config.{QueryTweak}
use compliance.PromQl.Comparer.{
  SamplePair, SampleStream, matrix, other, drop_first, drop_first_of_each, ignore_first_steps,
}

-- The tweaks that ask for a step to be dropped.
abbrev pub steps : {F : Type 0} → List (QueryTweak F) → ℕ
steps tweaks = count_if (λ qt. qt.ignore_first_step) tweaks

module _ {S : Type 0} (start : Instant) where
  -- Without its first values, at most `n` of them, that lie at most two milliseconds after the
  -- start.
  abbrev without_early : ℕ → List (SamplePair S) → List (SamplePair S)
  without_early zero vs = vs
  without_early (suc n) [] = []
  without_early (suc n) (v ∷ vs) =
      if leb v.timestamp (start + 2 * millisecond) then without_early n vs else v ∷ vs

  abbrev pub late_stream : ℕ → SampleStream S → SampleStream S
  late_stream n r = record r { values = without_early n r.values }

  late_values :
      (n : ℕ) (v : SamplePair S) (vs : List (SamplePair S))
      → leb v.timestamp (start + 2 * millisecond) ≡ false
      → without_early n (v ∷ vs) ≡ v ∷ vs
  late_values zero v vs h = refl
  late_values (suc n) v vs h = rw h refl

  without_early-drop_first :
      (n : ℕ) (vs : List (SamplePair S))
      → without_early n (drop_first start vs) ≡ without_early (suc n) vs
  unfolding drop_first
  without_early-drop_first zero [] = refl
  without_early-drop_first (suc n) [] = refl
  without_early-drop_first n (v ∷ vs) =
      elim (Bool-cases (leb v.timestamp (start + 2 * millisecond))) [
        | inl e ↦ rw e refl
        | inr e ↦ rw e (late_values n v vs e)
      ]

  map-drop_first_of_each :
      (n : ℕ) (rs : List (SampleStream S))
      → map (late_stream n) (drop_first_of_each start rs) ≡ map (late_stream (suc n)) rs
  unfolding drop_first_of_each
  map-drop_first_of_each n [] = refl
  map-drop_first_of_each n (r ∷ rs) =
      rw (without_early-drop_first n r.values, map-drop_first_of_each n rs) refl

  map-late_stream_zero : (rs : List (SampleStream S)) → map (late_stream 0) rs ≡ rs
  map-late_stream_zero [] = refl
  map-late_stream_zero (r ∷ rs) = rw (map-late_stream_zero rs) refl

  pub ignore_first_steps-matrix :
      {F : Type 0} (tweaks : List (QueryTweak F)) (rs : List (SampleStream S))
      → ignore_first_steps tweaks start (matrix rs)
        ≡ some (matrix (map (late_stream (steps tweaks)) rs))
  unfolding ignore_first_steps
  ignore_first_steps-matrix [] rs = ap (λ xs. some (matrix xs)) (sym (map-late_stream_zero rs))
  ignore_first_steps-matrix (qt ∷ tweaks) rs = elim (Bool-cases qt.ignore_first_step) [
    | inl e ↦
        rw
          (
            e,
            ignore_first_steps-matrix tweaks (drop_first_of_each start rs),
            map-drop_first_of_each,
          )
          refl
    | inr e ↦ rw (e, ignore_first_steps-matrix tweaks rs) refl
  ]

  pub ignore_first_steps-other :
      {F : Type 0} (tweaks : List (QueryTweak F))
      → ignore_first_steps {S = S} tweaks start other
        ≡ (elim (steps tweaks) [ zero ↦ some other | suc _ ↦ none ])
  unfolding ignore_first_steps
  ignore_first_steps-other [] = refl
  ignore_first_steps-other (qt ∷ tweaks) = elim (Bool-cases qt.ignore_first_step) [
    | inl e ↦ rw e refl
    | inr e ↦ rw (e, ignore_first_steps-other tweaks) refl
  ]
