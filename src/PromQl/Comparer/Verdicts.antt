-- ===== src/PromQl/Comparer/Verdicts.antt =====
-- What a result of Comparer.Compare (promql/comparer/comparer.go) says about the two APIs.
use compliance.Base.{
  ℕ, zero, suc, map, ◌≡◌, refl, ◌↔◌, ◌≢◌, ◌⊎◌, none, some, Bool, true, false, List, str_eq_iff,
  Option-cases, sort_slice, arith,
}
use compliance.PromQl.Config.{QueryTweak}
use compliance.PromQl.TestCases.{TestCase}
use compliance.PromQl.Comparer.FirstSteps.{
  steps, late_stream, ignore_first_steps-matrix, ignore_first_steps-other,
}
use compliance.PromQl.Comparer.{
  SampleStream, diff_or_panic, reference_failed, reference_succeeded, Value, matrix, other,
  Response, value, failure, ComparerApi, Comparison, Outcome, result, success, ignore_first_steps,
  new_options, compare_values, compare_answers, compare,
}

-- An API that fails says why.
abbrev Speaks : {S : Type 0} → Response S → Type 0
Speaks (failure e) = e ≢ ""
Speaks (value v) = Unit

abbrev pub fails : {S : Type 0} → Response S → Bool
fails (failure e) = true
fails (value v) = false

-- A result that is a success.
abbrev pub passes : Outcome → Bool
passes (result r) = success r
passes _ = false

-- An error, which the command does not report as a result.
abbrev is_error : Outcome → Bool
is_error (reference_failed e) = true
is_error reference_succeeded = true
is_error _ = false

module _ {F S : Type 0} (api : ComparerApi F S) (tweaks : List (QueryTweak F)) (tc : TestCase) where
  -- The comparison of a reference result with the sorted test result shows no difference.
  abbrev IsSame : Value S → List (SampleStream S) → Type 0
  IsSame w rs = api.diff w (matrix (sort_slice api.matrix_less rs)) (new_options api tweaks) ≡ ""

  -- The results are the same: both are matrices, and each series of the reference result without its
  -- first values, at most as many as there are tweaks to ignore the first step, that lie at most two
  -- milliseconds after the start, is compared with the sorted test result. A reference result that is
  -- no matrix is compared as it is, and only without such a tweak.
  abbrev SameResult : Value S → Value S → Type 0
  SameResult w other = ⊥
  SameResult other (matrix rs) = (steps tweaks ≡ 0) × IsSame other rs
  SameResult (matrix ws) (matrix rs) =
      IsSame (matrix (map (late_stream tc.start (steps tweaks)) ws)) rs

  -- The two APIs agree on the query: both fail and are meant to, or both answer, are meant to, and
  -- the comparison is skipped or finds no difference.
  abbrev pub Agrees : Response S → Response S → Type 0
  Agrees (failure e) (failure e') = tc.should_fail ≡ true
  Agrees (value w) (value v) =
      (tc.should_fail ≡ false) × ((tc.skip_comparison ≡ true) ⊎ SameResult w v)
  Agrees (failure e) (value v) = ⊥
  Agrees (value w) (failure e) = ⊥

  passes-diff :
      (w v : Value S)
      → (passes (diff_or_panic api tweaks (some w) v) ≡ true)
        ↔ (api.diff w v (new_options api tweaks) ≡ "")
  unfolding success
  passes-diff w v = ground (arith, str_eq_iff (api.diff w v (new_options api tweaks)) "")

  passes-diff_other :
      (n : ℕ) (v : Value S)
      → (passes (diff_or_panic api tweaks (elim n [ zero ↦ some other | suc _ ↦ none ]) v) ≡ true)
        ↔ ((n ≡ 0) × (api.diff other v (new_options api tweaks) ≡ ""))
  passes-diff_other zero v =
      let same = passes-diff other v in ((λ h. (refl, same.0 h)), (λ (e, d). same.1 d))
  passes-diff_other (suc n) v = ground arith

  passes-compare_values :
      (w v : Value S) → (passes (compare_values api tweaks tc w v) ≡ true) ↔ SameResult w v
  unfolding compare_values
  passes-compare_values (matrix ws) other = ground arith
  passes-compare_values other other = ground arith
  passes-compare_values (matrix ws) (matrix rs) =
      rw (ignore_first_steps-matrix tc.start tweaks ws) (
        passes-diff (matrix (map (late_stream tc.start (steps tweaks)) ws))
          (matrix (sort_slice api.matrix_less rs)))
  passes-compare_values other (matrix rs) =
      rw (ignore_first_steps-other {S = S} tc.start tweaks)
        (passes-diff_other (steps tweaks) (matrix (sort_slice api.matrix_less rs)))

  -- A query passes exactly when the two APIs agree on it: both fail and are meant to, or both answer
  -- and are meant to, and the comparison is skipped or shows no difference between the test result,
  -- sorted, and the reference result without the first values of each series that lie at most two
  -- milliseconds after the start, at most as many as there are tweaks to ignore the first step. The
  -- condition is that an error of the test API has a text that is not empty.
  pub passes-compare :
      (ref test : Response S)
      → Speaks test
      → (passes (compare api tweaks tc ref test) ≡ true) ↔ Agrees ref test
  unfolding compare compare_answers success
  passes-compare (failure e) (failure e') h = ground (arith, str_eq_iff e' "")
  passes-compare (failure e) (value v) h = ground arith
  passes-compare (value w) (failure e') h = ground (arith, str_eq_iff e' "")
  passes-compare (value w) (value v) h = ground (arith, passes-compare_values w v)

  is_error-compare_values : (w v : Value S) → is_error (compare_values api tweaks tc w v) ≡ false
  unfolding compare_values
  is_error-compare_values w other = refl
  is_error-compare_values w (matrix rs) =
      ground (arith, Option-cases (ignore_first_steps tweaks tc.start w))

  is_error-compare_answers :
      (ref test : Response S) → is_error (compare_answers api tweaks tc ref test) ≡ false
  unfolding compare_answers
  is_error-compare_answers (failure e) (failure e') = ground arith
  is_error-compare_answers (failure e) (value v) = ground arith
  is_error-compare_answers (value w) (failure e') = ground arith
  is_error-compare_answers (value w) (value v) = ground (arith, is_error-compare_values w v)

  -- Compare returns an error in place of a result exactly when the reference API fails on a query
  -- that should succeed or succeeds on one that should fail, whatever the test API answers.
  compare-is_error :
      (ref test : Response S)
      → (is_error (compare api tweaks tc ref test) ≡ true) ↔ (fails ref ≢ tc.should_fail)
  unfolding compare
  compare-is_error (failure e) test = ground (arith, is_error-compare_answers (failure e) test)
  compare-is_error (value w) test = ground (arith, is_error-compare_answers (value w) test)

  -- Unsupported, where the text of an error has "501" in it and the empty text has not.
  abbrev counts_unsupported : Outcome → Bool
  counts_unsupported (result r) = r.unsupported
  counts_unsupported _ = false

  unsupported-compare_values :
      (w v : Value S) → counts_unsupported (compare_values api tweaks tc w v) ≡ false
  unfolding compare_values
  unsupported-compare_values w other = refl
  unsupported-compare_values w (matrix rs) =
      ground (arith, Option-cases (ignore_first_steps tweaks tc.start w))

  unsupported-compare_answers :
      api.contains_501 "" ≡ false
      → (ref test : Response S) (r : Comparison) → compare_answers api tweaks tc ref test ≡ result r
      → r.unsupported ≡ true
      → success r ≡ false
  unfolding compare_answers success
  unsupported-compare_answers h (failure e) (failure e') r q u = ground (arith, str_eq_iff e' "")
  unsupported-compare_answers h (failure e) (value v) r q u = ground arith
  unsupported-compare_answers h (value w) (failure e') r q u = ground (arith, str_eq_iff e' "")
  unsupported-compare_answers h (value w) (value v) r q u =
      ground (arith, unsupported-compare_values w v)
