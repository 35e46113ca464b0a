-- ===== src/AlertGenerator/Cases/Checks.antt =====
-- alert_generator/cases/utils.go: the checks of API answers against the expected ones. Parsing of
-- floats and of PromQL expressions, the comparison of floats and of labels, and the conversion of
-- an interval in seconds are operations of an interface. Error texts are left out. sort.Slice
-- sorts the callers' slices in place; here each check sorts its own copy.
pub mod Loops
pub mod Agreement
pub mod Accepting
use Prim.Native.Nat.{Ordering}
use compliance.Base.{
  ℤ, int_eq, ℕ, ◌+◌, ◌*◌, ◌==◌, ltb, String, Bool, true, false, not, ◌&&◌, ◌||◌, List, [], ◌∷◌,
  ◌++◌, Option, none, some, str_eq, if◌then◌else◌, length, sort_slice,
}
use compliance.AlertGenerator.Api.{Time, Duration, is_eq}
use compliance.AlertGenerator.ExpectedAlert.{max_rtt}

-- v1.Alert.
pub record ApiAlert (L : Type 0) : Type 0 where
  pub labels : L
  pub annotations : L
  pub state : String
  pub active_at : Option Time
  pub value : String

-- promql.Sample.
pub record Sample (L F : Type 0) : Type 0 where
  pub metric : L
  pub t : ℤ
  pub v : F

pub record CheckApi (L F : Type 0) : Type 0 where
  pub compare_labels : L → L → Ordering
  pub float_eq : F → F → Bool
  pub parse_float : String → Option F
  pub parse_expr : String → Option String
  pub in_seconds : F → Duration

-- Why an alert or a sample fails the check. The last two stand for panics of the test suite.
pub data CheckError : Type 0 where
  different_number value_unparsable mismatch no_active_at out_of_range : CheckError
  expected_value_unparsable bad_expectation no_actual : CheckError

abbrev pub panics : CheckError → Bool
panics bad_expectation = true
panics no_actual = true
panics _ = false

-- The loops of checkExpectedAlerts, checkExpectedRuleGroup and checkExpectedSamples: the first
-- expectation that matches ends the check, the errors of the others are collected. `stops` tells
-- which errors are panics; such a one ends the loop.
unfoldable pub check_any :
    {X E : Type 0} → (E → Bool) → (X → Option E) → List E → List X → Option (List E)
check_any stops check errs [] = some errs
check_any stops check errs (exp ∷ rest) = elim (check exp) [
  | none ↦ none
  | some err ↦ elim (stops err) [
    | true ↦ some (errs ++ err ∷ [])
    | false ↦ check_any stops check (errs ++ err ∷ []) rest
  ]
]

-- A loop over two slices that ends with the first error. `absent` is the panic of an index that
-- is out of the range of the second.
unfoldable pub first_error : {X Y E : Type 0} → E → (X → Y → Option E) → List X → List Y → Option E
first_error absent check [] acts = none
first_error absent check (e ∷ exps) [] = some absent
first_error absent check (e ∷ exps) (a ∷ acts) = elim (check e a) [
  | none ↦ first_error absent check exps acts
  | some err ↦ some err
]

module _ {L F : Type 0} (api : CheckApi L F) where
  abbrev pub same_labels : L → L → Bool
  same_labels a b = is_eq (api.compare_labels a b)

  -- `labels.Compare(a, b) <= 0`.
  abbrev pub labels_le : L → L → Bool
  labels_le a b = elim (api.compare_labels a b) [ Ordering.gt ↦ false | _ ↦ true ]

  abbrev values_equal : Option F → Option F → Option CheckError → Option CheckError
  values_equal none av rest = some expected_value_unparsable
  values_equal (some ev) none rest = some value_unparsable
  values_equal (some ev) (some av) rest = if api.float_eq ev av then rest else some mismatch

  -- The body of the first loop of areAlertsEqual. (The values are compared last; which of the two
  -- sides of a mismatch is at fault makes no difference to the error.)
  unfoldable alert_error : ApiAlert L → ApiAlert L → Option CheckError
  alert_error e a = values_equal (api.parse_float e.value) (api.parse_float a.value) (
      if same_labels e.labels a.labels
        && (same_labels e.annotations a.annotations && str_eq e.state a.state)
      then none
      else some mismatch)

  abbrev range_error : Duration → Option Time → Option Time → Option CheckError
  range_error interval exp none = some no_active_at
  range_error interval none (some t) = some bad_expectation
  range_error interval (some from) (some t) =
      if ltb t from || ltb (from + (interval + 2 * max_rtt)) t then some out_of_range else none

  abbrev alert_before : ApiAlert L → ApiAlert L → Bool
  alert_before a b = labels_le a.labels b.labels

  -- The two loops of areAlertsEqual, on the sorted slices.
  unfoldable alerts_error : Duration → List (ApiAlert L) → List (ApiAlert L) → Option CheckError
  unfolding first_error alert_error
  alerts_error interval exp act = elim (first_error no_actual alert_error exp act) [
    | none ↦ first_error no_actual (λ e a. range_error interval e.active_at a.active_at) exp act
    | some err ↦ some err
  ]

  -- areAlertsEqual.
  unfoldable pub are_alerts_equal :
      Duration → List (ApiAlert L) → List (ApiAlert L) → Option CheckError
  unfolding alerts_error
  are_alerts_equal interval act exp =
      if not (length exp == length act)
      then some different_number
      else alerts_error interval (sort_slice alert_before exp) (sort_slice alert_before act)

  -- checkExpectedAlerts.
  unfoldable pub check_expected_alerts :
      List (List (ApiAlert L)) → List (ApiAlert L) → Duration → Option (List CheckError)
  unfolding check_any are_alerts_equal
  check_expected_alerts exp_alerts act interval =
      check_any panics (are_alerts_equal interval act) [] exp_alerts

  abbrev sample_before : Sample L F → Sample L F → Bool
  sample_before a b = labels_le a.metric b.metric

  -- The body of the loop of areSamplesEqual.
  unfoldable sample_error : Sample L F → Sample L F → Option CheckError
  sample_error e a =
      if same_labels e.metric a.metric && (int_eq e.t a.t && api.float_eq e.v a.v)
      then none
      else some mismatch

  -- areSamplesEqual.
  unfoldable are_samples_equal : List (Sample L F) → List (Sample L F) → Option CheckError
  unfolding sample_error first_error
  are_samples_equal act exp =
      if not (length exp == length act)
      then some different_number
      else first_error no_actual sample_error (sort_slice sample_before exp)
          (sort_slice sample_before act)

  -- checkExpectedSamples.
  unfoldable pub check_expected_samples :
      List (List (Sample L F)) → List (Sample L F) → Option (List CheckError)
  unfolding check_any are_samples_equal
  check_expected_samples exp_samples act = check_any panics (are_samples_equal act) [] exp_samples
