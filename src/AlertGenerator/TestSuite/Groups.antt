-- ===== src/AlertGenerator/TestSuite/Groups.antt =====
-- What removeGroups does to each group (alert_generator/testsuite.go).
use compliance.Base.{
  ◌≡◌, refl, String, false, not, ◌&&◌, List, [], ◌∷◌, ◌++◌, Option, none, some, arith, str_eq,
  str_eq_iff, if◌then◌else◌, Dict, lookup, contains, lookup-insert, lookup_of_not_contains,
  append-nil, lookup-erase, contains-erase,
}
use compliance.AlertGenerator.TestSuite.State.{TestSuite, errors_of, remove_group, remove_groups}

-- What the request to remove a group adds to its errors.
abbrev pub new_errors : {E : Type 0} → Option (Option E) → List E
new_errors (some (some e)) = e ∷ []
new_errors _ = []

module _ {C E : Type 0} where
  remove_group-lookup :
      (gn j : String) (err : Option E) (ts : TestSuite C E)
      → lookup j (remove_group gn err ts).rule_group_tests
        ≡ (if str_eq gn j then none else lookup j ts.rule_group_tests)
  unfolding remove_group
  remove_group-lookup gn j err ts = ground (
    arith,
    str_eq_iff gn j,
    lookup-erase gn j ts.rule_group_tests,
    lookup_of_not_contains gn ts.rule_group_tests,
  )

  remove_group-contains :
      (gn j : String) (err : Option E) (ts : TestSuite C E)
      → contains j (remove_group gn err ts).rule_group_tests
        ≡ (if str_eq gn j then false else contains j ts.rule_group_tests)
  unfolding remove_group
  remove_group-contains gn j err ts =
      ground (arith, str_eq_iff gn j, contains-erase gn j ts.rule_group_tests)

  remove_group-errors :
      (gn j : String) (err : Option E) (ts : TestSuite C E)
      → errors_of j (remove_group gn err ts) ≡ (
          if str_eq gn j && contains j ts.rule_group_tests
          then errors_of j ts ++ new_errors (some err)
          else errors_of j ts)
  unfolding remove_group
  remove_group-errors gn j none ts = ground (arith, append-nil (errors_of j ts))
  remove_group-errors gn j (some e) ts = ground (
    arith,
    str_eq_iff gn j,
    lookup-insert gn j (errors_of gn ts ++ e ∷ []) ts.rule_group_test_errors,
  )

  -- removeGroups ends the tests of exactly the given groups: the test of any other group is still
  -- there, the same as before.
  pub remove_groups-lookup :
      (j : String) (groups : Dict (Option E)) (ts : TestSuite C E)
      → lookup j (remove_groups groups ts).rule_group_tests
        ≡ (if contains j groups then none else lookup j ts.rule_group_tests)
  unfolding remove_groups contains
  remove_groups-lookup j [] ts = refl
  remove_groups-lookup j ((gn, err) ∷ groups) ts = ground (
    arith,
    remove_groups-lookup j groups (remove_group gn err ts),
    remove_group-lookup gn j err ts,
  )

  pub remove_groups-contains :
      (j : String) (groups : Dict (Option E)) (ts : TestSuite C E)
      → contains j (remove_groups groups ts).rule_group_tests
        ≡ (contains j ts.rule_group_tests && not (contains j groups))
  unfolding remove_groups contains
  remove_groups-contains j [] ts = ground arith
  remove_groups-contains j ((gn, err) ∷ groups) ts = ground (
    arith,
    remove_groups-contains j groups (remove_group gn err ts),
    remove_group-contains gn j err ts,
  )

  -- removeGroups adds an error to the record of a group exactly if the group is under test and is
  -- given with an error; it adds that one, at the end.
  pub remove_groups-errors :
      (j : String) (groups : Dict (Option E)) (ts : TestSuite C E)
      → errors_of j (remove_groups groups ts) ≡ (
          if contains j ts.rule_group_tests
          then errors_of j ts ++ new_errors (lookup j groups)
          else errors_of j ts)
  unfolding remove_groups lookup
  remove_groups-errors j [] ts = ground (arith, append-nil (errors_of j ts))
  remove_groups-errors j ((gn, err) ∷ groups) ts = ground (
    arith,
    remove_groups-errors j groups (remove_group gn err ts),
    remove_group-contains gn j err ts,
    remove_group-errors gn j err ts,
  )
