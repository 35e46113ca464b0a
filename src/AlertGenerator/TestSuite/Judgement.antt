-- ===== src/AlertGenerator/TestSuite/Judgement.antt =====
-- What the verdict of the suite means (alert_generator/testsuite.go).
use compliance.Base.{
  All, ◌⊎◌, ◌++◌, or_nil, List-cases, ◌≡◌, ◌≢◌, ◌↔◌, inl, inr, refl, String, Bool, true, false,
  List, [], ◌∷◌, none, some, arith, str_eq, if◌then◌else◌, Dict, lookup, insert, contains,
  contains-insert, In, Bool-cases,
}
use compliance.AlertGenerator.Api.{Time, AlertApi, Alert}
use compliance.AlertGenerator.ExpectedAlert.{ExpectedAlert, matches}
use compliance.AlertGenerator.Server.State.{
  AlertsServer, AllErrs, errs_of, has_errors, facing, groups_facing_errors, collect_alerts,
  collect_expected, expected_alerts_error,
}
use compliance.AlertGenerator.Server.Handler.{receive}
use compliance.AlertGenerator.Server.Conservation.{all_alerts}
use compliance.AlertGenerator.Server.Errors.{KeepsErrors}
use compliance.AlertGenerator.Server.Reports.{receive-notices, has_errors-Extends}
use compliance.AlertGenerator.TestSuite.State.{Settings, TestSuite}
use compliance.AlertGenerator.TestSuite.Verdict.{was_test_successful}

module _ {L C E : Type 0} (api : AlertApi L) where
  -- The condition of the verdict, in terms of what the server reports.
  was_test_successful_parts :
      (set : Settings) (ts : TestSuite C E) (s : AlertsServer L)
      → ((was_test_successful api set ts s).0 ≡ true) ↔ (
          (ts.stopped ≡ true)
          × (ts.rule_group_test_errors ≡ [])
          × (groups_facing_errors s ≡ [])
          × (expected_alerts_error s ≡ []))
  unfolding was_test_successful
  was_test_successful_parts set ts s = ground arith

insert_not_nil : {V : Type 0} (k : String) (v : V) (m : Dict V) → insert k v m ≢ []
unfolding insert
insert_not_nil k v [] h = cc
insert_not_nil k v ((j, w) ∷ m) h = ground arith

module _ {L : Type 0} where
  -- A group without a missed, an unexpected and a mismatching alert.
  abbrev pub IsClean : AllErrs L → Type 0
  IsClean e = (e.missed_alerts ≡ []) × (e.unexpected_alerts ≡ []) × (e.matching_errs ≡ [])

  has_errors-IsClean : (e : AllErrs L) → (has_errors e ≡ false) ↔ IsClean e
  has_errors-IsClean e = ground (
    arith,
    List-cases e.missed_alerts,
    List-cases e.unexpected_alerts,
    List-cases e.matching_errs,
  )

  facing-nil :
      (errs : Dict (AllErrs L)) (g : Dict Bool)
      → (facing errs g ≡ []) ↔ ((g ≡ []) × All (λ x. IsClean x.1) errs)
  unfolding facing
  facing-nil [] g = ((λ h. (h, tt)), (λ (h, k). h))
  facing-nil ((rg, e) ∷ errs) g = elim (Bool-cases (has_errors e)) [
    | inl h ↦
        let rest = facing-nil errs (insert rg true g) in
        (
          (λ k. absurd (insert_not_nil rg true g (rest.0 (rw h at k)).0)),
          (λ k. ground (arith, h, (has_errors-IsClean e).1 k.1.0)),
        )
    | inr h ↦
        let rest = facing-nil errs g in
        let clean = (has_errors-IsClean e).0 h in
        (
          (λ k. let (p, q) = rest.0 (rw h at k) in (p, (clean, q))),
          (λ k. rw h (rest.1 (k.0, k.1.1))),
        )
  ]

  -- Nothing but resends.
  abbrev pub AreResends : List (ExpectedAlert L) → Type 0
  AreResends eas = All (λ ea. ea.resend ≡ true) eas

  collect_alerts-nil :
      (rg : String) (eas : List (ExpectedAlert L)) (eae : Dict (List (ExpectedAlert L)))
      → (collect_alerts rg eas eae ≡ []) ↔ ((eae ≡ []) × AreResends eas)
  unfolding collect_alerts
  collect_alerts-nil rg [] eae = ((λ h. (h, tt)), (λ (h, k). h))
  collect_alerts-nil rg (al ∷ als) eae =
      let added = insert rg (or_nil (lookup rg eae) ++ al ∷ []) eae in
      ground (
        arith,
        collect_alerts-nil rg als eae,
        collect_alerts-nil rg als added,
        insert_not_nil rg (or_nil (lookup rg eae) ++ al ∷ []) eae,
        Bool-cases al.resend,
      )

  collect_expected-nil :
      (m eae : Dict (List (ExpectedAlert L)))
      → (collect_expected m eae ≡ []) ↔ ((eae ≡ []) × All (λ x. AreResends x.1) m)
  unfolding collect_expected
  collect_expected-nil [] eae = ((λ h. (h, tt)), (λ (h, k). h))
  collect_expected-nil ((rg, eas) ∷ m) eae =
      ground
        (arith, collect_expected-nil m (collect_alerts rg eas eae), collect_alerts-nil rg eas eae)

facing_not_empty : (rg : String) (g : Dict Bool) → contains rg g ≡ true → g ≢ []
unfolding contains
facing_not_empty rg [] h = cc
facing_not_empty rg (x ∷ g) h = λ e. cc

module _ {L : Type 0} where
  facing-grows :
      (rg : String) (errs : Dict (AllErrs L)) (g : Dict Bool)
      → contains rg g ≡ true
      → contains rg (facing errs g) ≡ true
  unfolding facing
  facing-grows rg [] g h = h
  facing-grows rg ((j, e) ∷ errs) g h = ground (
    arith,
    facing-grows rg errs (if has_errors e then insert j true g else g),
    contains-insert j rg true g,
  )

  -- A group with an error on record is one of the groups facing errors.
  facing_of_has_errors :
      (rg : String) (errs : Dict (AllErrs L)) (g : Dict Bool)
      → has_errors (errs_of rg errs) ≡ true
      → contains rg (facing errs g) ≡ true
  unfolding facing lookup
  facing_of_has_errors rg [] g h = cc
  facing_of_has_errors rg ((j, e) ∷ errs) g h = elim (Bool-cases (str_eq j rg)) [
    | inl p ↦
        let here : has_errors e ≡ true = rw p at h in
        rw here (facing-grows rg errs (insert j true g) (rw (contains-insert j rg true g, p) refl))
    | inr p ↦ facing_of_has_errors rg errs _ (rw p at h)
  ]

module _ {L C E : Type 0} (api : AlertApi L) where
  -- The suite reports success exactly when it has stopped, no group has an API or metrics error and,
  -- unless the alert reception check is disabled, no group on record has a missed, an unexpected or a
  -- mismatching alert and every alert that is still expected is a resend. With the check disabled
  -- neither the errors nor the expected alerts of the server matter.
  pub was_test_successful_iff :
      (set : Settings) (ts : TestSuite C E) (s : AlertsServer L)
      → ((was_test_successful api set ts s).0 ≡ true) ↔ (
          (ts.stopped ≡ true)
          × (ts.rule_group_test_errors ≡ [])
          × ((s.disabled ≡ true)
              ⊎ (All (λ x. IsClean x.1) s.errs × All (λ x. AreResends x.1) s.expected_alerts)))
  unfolding groups_facing_errors expected_alerts_error
  was_test_successful_iff set ts s = ground (
    arith,
    was_test_successful_parts api set ts s,
    facing-nil s.errs [],
    collect_expected-nil s.expected_alerts [],
  )

  -- A successful verdict vouches for every alert that a request brought: if the suite, whose
  -- reception check is enabled, ends with a success, and no error record was lost since the
  -- request, then each alert of the request matched an alert that was expected before it.
  pub success_vouches :
      (set : Settings) (ts : TestSuite C E) (last s s' : AlertsServer L) (now : Time)
      (als : List (Alert L)) {al : Alert L}
      → (was_test_successful api set ts last).0 ≡ true
      → last.disabled ≡ false
      → receive api now als s ≡ some s'
      → KeepsErrors s'.errs last.errs
      → In al als
      → (ea : ExpectedAlert L) × In ea (all_alerts s.expected_alerts)
        × (matches api ea now al ≡ none)
  unfolding groups_facing_errors
  success_vouches set ts last s s' now als {al} ok enabled served kept i =
      let rg = api.get_label al.labels "rulegroup" in
      let none_facing = ((was_test_successful_parts api set ts last).0 ok).2 in
      elim (Bool-cases (has_errors (errs_of rg s'.errs))) [
        | inr clean ↦ receive-notices api now als s s' i served clean
        | inl bad ↦
            let found =
              facing_of_has_errors rg last.errs []
                (has_errors-Extends (errs_of rg s'.errs) (errs_of rg last.errs) (kept rg) bad) in
            absurd (facing_not_empty rg (facing last.errs []) found (ground arith))
      ]
