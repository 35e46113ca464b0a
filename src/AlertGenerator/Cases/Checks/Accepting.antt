-- ===== src/AlertGenerator/Cases/Checks/Accepting.antt =====
-- The check of alert_generator/cases/utils.go does not panic on expectations that say when their
-- alerts became active.
use compliance.Base.{
  ◌≡◌, All, All-map, All-sort_slice, false, List, [], ◌∷◌, Option, none, some, length, sort_slice,
  length-sort_slice, In, inl, inr, Option-cases, Bool-cases, ◌==◌, ◌∙◌, sym, arith,
}
use compliance.AlertGenerator.Api.{Time, Duration}
use compliance.AlertGenerator.Cases.Checks.{
  ApiAlert, CheckApi, CheckError, panics, no_actual, first_error, alert_error, range_error,
  alert_before, alerts_error, are_alerts_equal, check_expected_alerts,
}
use compliance.AlertGenerator.Cases.Checks.Loops.{GoesOn}
use compliance.AlertGenerator.Cases.Checks.Agreement.{AlertsAgree, check_expected_alerts_iff}

-- The expected alert has an ActiveAt.
abbrev pub IsDated : {L : Type 0} → ApiAlert L → Type 0
IsDated e = (t : Time) × (e.active_at ≡ some t)

module _ {X Y : Type 0} (check : X → Y → Option CheckError) where
  -- The check of an element does not panic.
  abbrev Calm : X → Type 0
  Calm x = (y : Y) (err : CheckError) → check x y ≡ some err → panics err ≡ false

  first_error-Calm :
      (xs : List X) (ys : List Y) (err : CheckError)
      → length xs ≡ length ys
      → All Calm xs
      → first_error no_actual check xs ys ≡ some err
      → panics err ≡ false
  unfolding first_error
  first_error-Calm [] ys err l c h = cc
  first_error-Calm (x ∷ xs) [] err l c h = ground arith
  first_error-Calm (x ∷ xs) (y ∷ ys) err l c h = elim (Option-cases (check x y)) [
    | inl e ↦ first_error-Calm xs ys err (ground arith) c.1 (ground (arith, e))
    | inr (other, e) ↦ c.0 y err (ground (arith, e))
  ]

module _ {L F : Type 0} (api : CheckApi L F) where
  alert_error-Calm : (e : ApiAlert L) → Calm (alert_error api) e
  unfolding alert_error
  alert_error-Calm e a err h =
      ground (arith, Option-cases (api.parse_float e.value), Option-cases (api.parse_float a.value))

  range_error-Calm :
      (interval : Duration) (e : ApiAlert L)
      → IsDated e
      → Calm (λ e (a : ApiAlert L). range_error api interval e.active_at a.active_at) e
  range_error-Calm interval e (t, d) a err h = ground (arith, d, Option-cases a.active_at)

  alerts_error-Calm :
      (interval : Duration) (exp act : List (ApiAlert L)) (err : CheckError)
      → length exp ≡ length act
      → All IsDated exp
      → alerts_error api interval exp act ≡ some err
      → panics err ≡ false
  unfolding alerts_error
  alerts_error-Calm interval exp act err l d h =
      let range : ApiAlert L → ApiAlert L → Option CheckError =
        λ e a. range_error api interval e.active_at a.active_at in
      let first =
        first_error-Calm (alert_error api) exp act err l
          (All-map IsDated (Calm (alert_error api)) (λ e p. alert_error-Calm e) exp d) in
      let second =
        first_error-Calm range exp act err l
          (All-map IsDated (Calm range) (range_error-Calm interval) exp d) in
      ground (arith, Option-cases (first_error no_actual (alert_error api) exp act), first, second)

  are_alerts_equal-GoesOn :
      (interval : Duration) (act exp : List (ApiAlert L))
      → All IsDated exp
      → GoesOn panics (are_alerts_equal api interval act) exp
  unfolding are_alerts_equal
  are_alerts_equal-GoesOn interval act exp d err h =
      let before = alert_before api in
      elim (Bool-cases (length exp == length act)) [
        | inl e ↦
            alerts_error-Calm interval (sort_slice before exp) (sort_slice before act) err
              (length-sort_slice before exp
                ∙ (ground (arith, e) ∙ sym (length-sort_slice before act)))
              (All-sort_slice before IsDated exp d) (ground (arith, e, h))
        | inr e ↦ ground (arith, e, h)
      ]

  -- The actual alerts that agree with an expected list are accepted.
  pub check_expected_alerts_accepts :
      (exps : List (List (ApiAlert L))) (act : List (ApiAlert L)) (interval : Duration)
      (exp : List (ApiAlert L))
      → All (All IsDated) exps
      → In exp exps
      → AlertsAgree api interval act exp
      → check_expected_alerts api exps act interval ≡ none
  check_expected_alerts_accepts exps act interval exp d i agree =
      let check = are_alerts_equal api interval act in
      (check_expected_alerts_iff api exps act interval (
          All-map (All IsDated) (GoesOn panics check) (are_alerts_equal-GoesOn interval act) exps
            d)).1
        (exp, i, agree)
