-- ===== src/AlertGenerator/TestSuite/Explanation.antt =====
-- What the explanation of a failed test names (alert_generator/testsuite.go).
use compliance.Base.{
  is_empty, ◌≡◌, ◌⊎◌, inl, inr, refl, String, Bool, true, false, List, [], ◌∷◌, arith, str_eq,
  str_eq_iff, Dict, contains, In, here, there, In-append_left, In-append_right, Bool-cases,
}
use compliance.AlertGenerator.Api.{AlertApi}
use compliance.AlertGenerator.Server.State.{
  AlertsServer, AllErrs, errs_of, groups_facing_errors, group_error,
}
use compliance.AlertGenerator.TestSuite.State.{Settings, TestSuite}
use compliance.AlertGenerator.TestSuite.Verdict.{
  Line, group_name, numbered, api_error, describe_errs, describe_api, describe_reception,
  describe_failure, headed, api_failures, reception_failures, was_test_successful, no_failures,
}

module _ {L E : Type 0} where
  In-headed :
      {x : Line L E} (title : Line L E) (ls : List (Line L E)) → In x ls → In x (headed title ls)
  In-headed title [] i = i
  In-headed title (l ∷ ls) i = there i

  In-describe_api :
      (gn : String) (m : Dict (List E))
      → contains gn m ≡ true
      → In (group_name gn) (describe_api {L = L} m)
  unfolding describe_api contains
  In-describe_api gn [] h = cc
  In-describe_api gn ((j, errs) ∷ m) h = elim (Bool-cases (str_eq j gn)) [
    | inl e ↦ rw ((str_eq_iff j gn).0 e) here
    | inr e ↦
        there (In-append_right (numbered api_error 0 errs) _ (In-describe_api gn m (rw e at h)))
  ]

  In-describe_reception :
      (gn : String) (errs : Dict (AllErrs L)) (facing : Dict Bool)
      → contains gn facing ≡ true
      → In (group_name gn) (describe_reception {E = E} errs facing)
  unfolding describe_reception contains
  In-describe_reception gn errs [] h = cc
  In-describe_reception gn errs ((j, b) ∷ facing) h = elim (Bool-cases (str_eq j gn)) [
    | inl e ↦ rw ((str_eq_iff j gn).0 e) here
    | inr e ↦ there (
        In-append_right (describe_errs (errs_of j errs)) _
          (In-describe_reception gn errs facing (rw e at h)))
  ]

not_empty_of_key :
    {V : Type 0} (gn : String) (m : Dict V) → contains gn m ≡ true → is_empty m ≡ false
unfolding contains
not_empty_of_key gn [] h = cc
not_empty_of_key gn (x ∷ m) h = refl

module _ {L C E : Type 0} (api : AlertApi L) where
  has_failures :
      (ts : TestSuite C E) (s : AlertsServer L) (gn : String)
      → (contains gn ts.rule_group_test_errors ≡ true)
        ⊎ (contains gn (groups_facing_errors s) ≡ true)
      → no_failures api ts s ≡ false
  has_failures ts s gn failed = ground (
    arith,
    not_empty_of_key gn ts.rule_group_test_errors,
    not_empty_of_key gn (groups_facing_errors s),
  )

  was_test_successful-failure :
      (set : Settings) (ts : TestSuite C E) (s : AlertsServer L)
      → ts.stopped ≡ true
      → no_failures api ts s ≡ false
      → was_test_successful api set ts s ≡ (false, describe_failure api ts s)
  unfolding was_test_successful
  was_test_successful-failure set ts s stopped h = ground arith

  In-describe_failure :
      (ts : TestSuite C E) (s : AlertsServer L) (gn : String)
      → (contains gn ts.rule_group_test_errors ≡ true)
        ⊎ (contains gn (groups_facing_errors s) ≡ true)
      → In (group_name gn) (describe_failure api ts s)
  unfolding describe_failure
  In-describe_failure ts s gn (inl h) =
      In-append_left _ _ (In-headed api_failures _ (In-describe_api gn ts.rule_group_test_errors h))
  In-describe_failure ts s gn (inr h) =
      In-append_right (headed api_failures (describe_api ts.rule_group_test_errors)) _ (
        In-append_left _ _ (
          In-headed reception_failures _
            (In-describe_reception gn (group_error s) (groups_facing_errors s) h)))

  -- The explanation of a finished test names every group that failed the API and metrics check and
  -- every group that faces an alert reception error; the verdict is then a failure.
  pub was_test_successful-names :
      (set : Settings) (ts : TestSuite C E) (s : AlertsServer L) (gn : String)
      → ts.stopped ≡ true
      → (contains gn ts.rule_group_test_errors ≡ true)
        ⊎ (contains gn (groups_facing_errors s) ≡ true)
      → let (ok, describe) = was_test_successful api set ts s in
        (ok ≡ false) × In (group_name gn) describe
  was_test_successful-names set ts s gn stopped failed =
      rw (was_test_successful-failure set ts s stopped (has_failures ts s gn failed))
        (refl, In-describe_failure ts s gn failed)
