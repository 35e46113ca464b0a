-- ===== src/AlertGenerator/Cases/Checks/Agreement.antt =====
-- When the checks of alert_generator/cases/utils.go accept the alerts of an API.
use compliance.Base.{
  ◌+◌, ◌*◌, ◌≤◌, ◌≡◌, ◌↔◌, All, refl, true, ◌&&◌, List, [], Option, none, some, str_eq, str_eq_iff,
  if◌then◌else◌, length, sort_slice, In, arith,
}
use compliance.AlertGenerator.Api.{Time, Duration}
use compliance.AlertGenerator.ExpectedAlert.{max_rtt}
use compliance.AlertGenerator.Cases.Checks.{
  ApiAlert, CheckApi, CheckError, panics, mismatch, no_actual, first_error, same_labels,
  values_equal, alert_error, range_error, alert_before, alerts_error, are_alerts_equal,
  check_expected_alerts,
}
use compliance.AlertGenerator.Cases.Checks.Loops.{
  GoesOn, check_any-Some, check_any_of_Some, Along, first_error-Along, Along-both,
}

module _ {L F : Type 0} (api : CheckApi L F) where
  -- The alert of the API has the expected labels, annotations, state and value, and became active
  -- in the interval after the expected instant, up to two request times later.
  pub record AlertAgrees (interval : Duration) (e a : ApiAlert L) : Type 0 where
    pub labels_agree : same_labels api e.labels a.labels ≡ true
    pub annotations_agree : same_labels api e.annotations a.annotations ≡ true
    pub state_agrees : e.state ≡ a.state
    pub values_agree :
        (ev : F) × (av : F) × (api.parse_float e.value ≡ some ev)
        × (api.parse_float a.value ≡ some av)
        × (api.float_eq ev av ≡ true)
    pub active_agrees :
        (from : Time) × (t : Time) × (e.active_at ≡ some from)
        × (a.active_at ≡ some t)
        × (from ≤ t)
        × (t ≤ from + (interval + 2 * max_rtt))

  values_equal-none :
      (ev av : Option F) (rest : Option CheckError)
      → (values_equal api ev av rest ≡ none) ↔ (
          ((v : F) × (w : F) × (ev ≡ some v) × (av ≡ some w) × (api.float_eq v w ≡ true))
          × (rest ≡ none))
  values_equal-none none av rest = ground arith
  values_equal-none (some v) none rest = ground arith
  values_equal-none (some v) (some w) rest = (
    (λ h. ((v, w, refl, refl, ground arith), ground arith)),
    (λ ((v', w', e, f, g), h). ground (arith, e, f, g)),
  )

  range_error-none :
      (interval : Duration) (exp act : Option Time)
      → (range_error api interval exp act ≡ none) ↔ (
          (from : Time) × (t : Time) × (exp ≡ some from)
          × (act ≡ some t)
          × (from ≤ t)
          × (t ≤ from + (interval + 2 * max_rtt)))
  range_error-none interval exp none = ground arith
  range_error-none interval none (some t) = ground arith
  range_error-none interval (some from) (some t) = (
    (λ h. (from, t, refl, refl, ground arith, ground arith)),
    (λ (f, u, e, g, p, q). ground (arith, e, g)),
  )

  alert_error-none :
      (interval : Duration) (e a : ApiAlert L)
      → ((alert_error api e a ≡ none) × (range_error api interval e.active_at a.active_at ≡ none))
        ↔ AlertAgrees interval e a
  unfolding alert_error
  alert_error-none interval e a =
      let values = values_equal-none (api.parse_float e.value) (api.parse_float a.value) (
        if same_labels api e.labels a.labels
          && (same_labels api e.annotations a.annotations && str_eq e.state a.state)
        then none
        else some mismatch) in
      let range = range_error-none interval e.active_at a.active_at in
      (
        (λ (h, k).
            let (v, r) = values.0 h in
            record {
              labels_agree = ground (arith, r);
              annotations_agree = ground (arith, r);
              state_agrees = ground (arith, r, str_eq_iff e.state a.state);
              values_agree = v;
              active_agrees = range.0 k;
            }),
        (λ g. (
          values.1 (
            g.values_agree,
            ground (
              arith,
              g.labels_agree,
              g.annotations_agree,
              g.state_agrees,
              str_eq_iff e.state a.state,
            ),
          ),
          range.1 g.active_agrees,
        )),
      )

module _ {L F : Type 0} (api : CheckApi L F) where
  alerts_error-none :
      (interval : Duration) (exp act : List (ApiAlert L))
      → (alerts_error api interval exp act ≡ none) ↔ (
          (first_error no_actual (alert_error api) exp act ≡ none)
          × (first_error no_actual (λ e a. range_error api interval e.active_at a.active_at) exp act
              ≡ none))
  unfolding alerts_error
  alerts_error-none interval exp act = ground arith

  alerts_error-Along :
      (interval : Duration) (exp act : List (ApiAlert L))
      → (alerts_error api interval exp act ≡ none) ↔ Along (AlertAgrees api interval) exp act
  alerts_error-Along interval exp act =
      let split = alerts_error-none interval exp act in
      let range : ApiAlert L → ApiAlert L → Option CheckError =
        λ e a. range_error api interval e.active_at a.active_at in
      let first = first_error-Along no_actual (alert_error api) exp act in
      let second = first_error-Along no_actual range exp act in
      let both =
        Along-both (λ e a. alert_error api e a ≡ none) (λ e a. range e a ≡ none)
          (AlertAgrees api interval) (alert_error-none api interval) exp act in
      (
        (λ h. let (p, q) = split.0 h in both.0 (first.0 p, second.0 q)),
        (λ k. let (p, q) = both.1 k in split.1 (first.1 p, second.1 q)),
      )

  -- The actual alerts are as many as the expected ones and agree with them, both sorted by labels.
  abbrev pub AlertsAgree : Duration → List (ApiAlert L) → List (ApiAlert L) → Type 0
  AlertsAgree interval act exp =
      (length exp ≡ length act)
      × Along (AlertAgrees api interval) (sort_slice (alert_before api) exp)
          (sort_slice (alert_before api) act)

  are_alerts_equal-none :
      (interval : Duration) (act exp : List (ApiAlert L))
      → (are_alerts_equal api interval act exp ≡ none) ↔ AlertsAgree interval act exp
  unfolding are_alerts_equal
  are_alerts_equal-none interval act exp =
      let sorted =
        alerts_error-Along interval (sort_slice (alert_before api) exp)
          (sort_slice (alert_before api) act) in
      ((λ h. (ground arith, sorted.0 (ground arith))), (λ (l, k). ground (arith, sorted.1 k, l)))

  -- checkExpectedAlerts accepts the alerts of an API exactly when they agree with one of the
  -- expected lists, where the check of none of them panics: as many alerts, and, both lists sorted
  -- by labels, one by one the same labels, annotations and state, equal values, and an ActiveAt
  -- between the expected one and an interval plus two request times later. Without an expected
  -- list nothing is accepted.
  pub check_expected_alerts_iff :
      (exps : List (List (ApiAlert L))) (act : List (ApiAlert L)) (interval : Duration)
      → All (GoesOn panics (are_alerts_equal api interval act)) exps
      → (check_expected_alerts api exps act interval ≡ none)
        ↔ ((exp : List (ApiAlert L)) × In exp exps × AlertsAgree interval act exp)
  unfolding check_expected_alerts
  check_expected_alerts_iff exps act interval g =
      let check = are_alerts_equal api interval act in
      (
        (λ h.
            let (exp, i, p) = check_any-Some panics check [] exps h in
            (exp, i, (are_alerts_equal-none interval act exp).0 p)),
        (λ (exp, i, p).
            check_any_of_Some panics check [] exps g
              (exp, i, (are_alerts_equal-none interval act exp).1 p)),
      )

  pub check_expected_alerts-AlertsAgree :
      (exps : List (List (ApiAlert L))) (act : List (ApiAlert L)) (interval : Duration)
      → check_expected_alerts api exps act interval ≡ none
      → (exp : List (ApiAlert L)) × In exp exps × AlertsAgree interval act exp
  unfolding check_expected_alerts
  check_expected_alerts-AlertsAgree exps act interval h =
      let (exp, i, p) = check_any-Some panics (are_alerts_equal api interval act) [] exps h in
      (exp, i, (are_alerts_equal-none interval act exp).0 p)
