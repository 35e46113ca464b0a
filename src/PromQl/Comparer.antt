-- ===== src/PromQl/Comparer.antt =====
-- promql/comparer/comparer.go. What the two APIs answer is an argument. The error of a query is
-- its text. go-cmp's cmp.Diff, the sorting order of model.Matrix, strings.ToLower and whether the
-- text of an error contains "501" are operations of an interface. Samples have abstract values.
pub mod FirstSteps
pub mod Verdicts
pub mod Tweaks
use compliance.Base.{
  ℕ, ◌+◌, ◌*◌, String, Bool, true, false, not, ◌&&◌, ◌||◌, List, [], ◌∷◌, ◌++◌, Option, none, some,
  str_eq, leb, if◌then◌else◌, is_empty, Dict, insert, erase, sort_slice,
}
use compliance.PromQl.Time.{Instant, millisecond}
use compliance.PromQl.Config.{QueryTweak, AdjustValueTolerance}
use compliance.PromQl.TestCases.{TestCase}

-- model.SamplePair and model.SampleStream. A metric is a map of labels.
pub record SamplePair (S : Type 0) : Type 0 where
  pub timestamp : Instant
  pub value : S

pub record SampleStream (S : Type 0) : Type 0 where
  pub metric : Dict String
  pub values : List (SamplePair S)

-- model.Value: a matrix, or a value of another kind.
pub data Value (S : Type 0) : Type 0 where
  matrix : List (SampleStream S) → Value S
  other : Value S

-- A Go call's value and error.
pub data Response (S : Type 0) : Type 0 where
  value : Value S → Response S
  failure : String → Response S

-- The options of the comparison, in the order in which they are added.
pub data CompareOption (F : Type 0) : Type 0 where
  translate_float : CompareOption F
  equate_approx : F → F → CompareOption F
  equate_nans : CompareOption F
  drop_labels : List String → CompareOption F
  to_lower_case : CompareOption F

pub record ComparerApi (F S : Type 0) : Type 0 where
  pub default_fraction : F
  pub default_margin : F
  pub diff : Value S → Value S → List (CompareOption F) → String
  pub matrix_less : SampleStream S → SampleStream S → Bool
  pub contains_501 : String → Bool
  pub to_lower : String → String

-- comparer.Result, without the pointer to the test case.
pub record Comparison : Type 0 where
  pub diff : String
  pub unexpected_failure : String
  pub unexpected_success : Bool
  pub unsupported : Bool

-- What Compare returns: a result, an error, or the panic of a type assertion.
pub data Outcome : Type 0 where
  result : Comparison → Outcome
  reference_failed : String → Outcome
  reference_succeeded : Outcome
  panics : Outcome

abbrev pub no_differences : Comparison
no_differences = record {
  diff = "";
  unexpected_failure = "";
  unexpected_success = false;
  unsupported = false;
}

-- Result.Success.
unfoldable pub success : Comparison → Bool
success r = str_eq r.diff "" && (not r.unexpected_success && str_eq r.unexpected_failure "")

abbrev or_before {ℓ} : {A : Type ℓ} → Option A → A → A
or_before none a = a
or_before (some b) a = b

-- The function of the option DropResultLabels: the labels are deleted from a clone.
unfoldable pub drop_result_labels : List String → Dict String → Dict String
drop_result_labels [] m = m
drop_result_labels (ln ∷ lns) m = drop_result_labels lns (erase ln m)

module _ {S : Type 0} where
  -- `r.Values[1:]`, if the first value lies at most two milliseconds after the start.
  unfoldable drop_first : Instant → List (SamplePair S) → List (SamplePair S)
  drop_first start [] = []
  drop_first start (v ∷ vs) = if leb v.timestamp (start + 2 * millisecond) then vs else v ∷ vs

  unfoldable pub drop_first_of_each : Instant → List (SampleStream S) → List (SampleStream S)
  unfolding drop_first
  drop_first_of_each start [] = []
  drop_first_of_each start (r ∷ rs) =
      record r { values = drop_first start r.values } ∷ drop_first_of_each start rs

module _ {F S : Type 0} where
  -- The loop over the tweaks that drops the first step of the reference result. A reference result
  -- that is no matrix makes the type assertion panic.
  unfoldable ignore_first_steps : List (QueryTweak F) → Instant → Value S → Option (Value S)
  ignore_first_steps [] start v = some v
  ignore_first_steps (qt ∷ tweaks) start (matrix rs) =
      ignore_first_steps tweaks start
        (matrix (if qt.ignore_first_step then drop_first_of_each start rs else rs))
  ignore_first_steps (qt ∷ tweaks) start other =
      let rest = ignore_first_steps tweaks start other in
      if qt.ignore_first_step then none else rest

module _ {F S : Type 0} (api : ComparerApi F S) where
  -- The loop of addFloatCompareOptions.
  unfoldable float_tolerance : List (QueryTweak F) → F → F → F × F
  float_tolerance [] fraction margin = (fraction, margin)
  float_tolerance (rt ∷ tweaks) fraction margin = elim rt.adjust_value_tolerance [
    | none ↦ float_tolerance tweaks fraction margin
    | some t ↦ float_tolerance tweaks (or_before t.fraction fraction) (or_before t.margin margin)
  ]

  -- addFloatCompareOptions.
  unfoldable add_float_compare_options :
      List (QueryTweak F) → List (CompareOption F) → List (CompareOption F)
  unfolding float_tolerance
  add_float_compare_options tweaks options =
      let (fraction, margin) = float_tolerance tweaks api.default_fraction api.default_margin in
      options ++ translate_float ∷ equate_approx fraction margin ∷ equate_nans ∷ []

  -- addDropResultLabelsOptions.
  unfoldable add_drop_result_labels_options :
      List (QueryTweak F) → List (CompareOption F) → List (CompareOption F)
  add_drop_result_labels_options [] options = options
  add_drop_result_labels_options (rt ∷ tweaks) options = add_drop_result_labels_options tweaks (
      if is_empty rt.drop_result_labels
      then options
      else options ++ drop_labels rt.drop_result_labels ∷ [])

  -- addCaseInsensitiveCompareOptions.
  unfoldable add_case_insensitive_compare_options :
      List (QueryTweak F) → List (CompareOption F) → List (CompareOption F)
  add_case_insensitive_compare_options [] options = options
  add_case_insensitive_compare_options (rt ∷ tweaks) options =
      add_case_insensitive_compare_options tweaks
        (if rt.ignore_case then options ++ to_lower_case ∷ [] else options)

  -- The options that New puts together.
  unfoldable new_options : List (QueryTweak F) → List (CompareOption F)
  unfolding add_float_compare_options add_drop_result_labels_options
      add_case_insensitive_compare_options
  new_options tweaks =
      add_case_insensitive_compare_options tweaks
        (add_drop_result_labels_options tweaks (add_float_compare_options tweaks []))

  -- The function of the option TranslateToLowerCase, from the entries of the map to a new map.
  unfoldable lower_case_metric : Dict String → Dict String → Dict String
  lower_case_metric [] m = m
  lower_case_metric ((key, val) ∷ rest) m =
      lower_case_metric rest (insert (api.to_lower key) (api.to_lower val) m)

  abbrev diff_or_panic : List (QueryTweak F) → Option (Value S) → Value S → Outcome
  diff_or_panic tweaks none test = panics
  diff_or_panic tweaks (some ref) test =
      result (record no_differences { diff = api.diff ref test (new_options tweaks) })

  -- The comparison of two results, the last part of Compare.
  unfoldable compare_values : List (QueryTweak F) → TestCase → Value S → Value S → Outcome
  unfolding ignore_first_steps new_options
  compare_values tweaks tc ref other = panics
  compare_values tweaks tc ref (matrix rs) =
      diff_or_panic tweaks (ignore_first_steps tweaks tc.start ref)
        (matrix (sort_slice api.matrix_less rs))

  -- Compare after the first check: the test API's answer, then the comparison of two values.
  unfoldable compare_answers : List (QueryTweak F) → TestCase → Response S → Response S → Outcome
  unfolding compare_values
  compare_answers tweaks tc ref (failure e) =
      if tc.should_fail
      then result no_differences
      else result
          (record no_differences { unexpected_failure = e; unsupported = api.contains_501 e })
  compare_answers tweaks tc (failure e) (value v) =
      if tc.should_fail
      then result (record no_differences { unexpected_success = true })
      else result no_differences
  compare_answers tweaks tc (value w) (value v) =
      if tc.should_fail
      then result (record no_differences { unexpected_success = true })
      else if tc.skip_comparison
      then result no_differences
      else compare_values tweaks tc w v

  -- Compare, on what the reference API and the test API answer.
  unfoldable pub compare : List (QueryTweak F) → TestCase → Response S → Response S → Outcome
  unfolding compare_answers
  compare tweaks tc (failure e) test =
      if tc.should_fail then compare_answers tweaks tc (failure e) test else reference_failed e
  compare tweaks tc (value w) test =
      if tc.should_fail then reference_succeeded else compare_answers tweaks tc (value w) test
