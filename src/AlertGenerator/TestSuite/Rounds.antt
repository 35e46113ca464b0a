-- ===== src/AlertGenerator/TestSuite/Rounds.antt =====
-- What one round of a checking loop does to each rule group, and when the loops end (alert_generator/testsuite.go).
use compliance.Base.{
  ℕ, ◌≤◌, ◌<◌, ◌≡◌, refl, String, true, false, List, [], ◌∷◌, ◌++◌, Option, none, some, arith,
  str_eq, str_eq_iff, ltb, if◌then◌else◌, is_empty, Dict, lookup, contains, UniqueKeys,
  lookup-insert, contains-lookup, empty_of_no_keys, lookup_of_not_contains, append-nil, inl, inr,
  ◌⊎◌, Option-cases, Bool-cases, ◌∙◌, ap,
}
use compliance.AlertGenerator.TestSuite.State.{
  TestCase, TestSuite, errors_of, remove_groups, is_over, collect_group, collect_groups,
  check_round, latest_end, test_until_all,
}
use compliance.AlertGenerator.TestSuite.Groups.{
  remove_groups-lookup, remove_groups-contains, remove_groups-errors,
}

module _ {A R M E B : Type 0} (check : TestCase A R M E → ℕ → Option B → Option E) (now : ℕ) where
  -- What a round decides about a group: nothing, its end without an error, or its failure.
  abbrev decision : TestCase A R M E → Option B → Option (Option E) → Option (Option E)
  decision c answer before =
      if ltb c.test_until now
      then some none
      else elim (check c now answer) [ none ↦ before | some e ↦ some (some e) ]

  abbrev decision_for : Option (TestCase A R M E) → Option B → Option (Option E) → Option (Option E)
  decision_for none answer before = before
  decision_for (some c) answer before = decision c answer before

  collect_group-lookup :
      (j gn : String) (answer : Option B) (c : TestCase A R M E) (groups : Dict (Option E))
      → lookup j (collect_group check now answer gn c groups)
        ≡ (if str_eq gn j then decision c answer (lookup j groups) else lookup j groups)
  unfolding collect_group
  collect_group-lookup j gn answer c groups = elim (Option-cases (check c now answer)) [
    | inl e ↦ ground (arith, lookup-insert gn j none groups)
    | inr (err, e) ↦
        ground (arith, lookup-insert gn j none groups, lookup-insert gn j (some err) groups)
  ]

  collect_groups-lookup :
      (answers : Dict B) (j : String) (tests : Dict (TestCase A R M E)) (groups : Dict (Option E))
      → UniqueKeys tests
      → lookup j (collect_groups check now answers tests groups)
        ≡ decision_for (lookup j tests) (lookup j answers) (lookup j groups)
  unfolding collect_groups lookup
  collect_groups-lookup answers j [] groups h = refl
  collect_groups-lookup answers j ((gn, c) ∷ tests) groups h = elim (Bool-cases (str_eq gn j)) [
    | inl e ↦
        let same = (str_eq_iff gn j).0 e in
        collect_groups-lookup answers j tests _ h.1
        ∙ rw
            (
              lookup_of_not_contains j tests (rw same at h.0),
              collect_group-lookup j gn (lookup gn answers) c groups,
              e,
              same,
            )
            refl
    | inr e ↦
        collect_groups-lookup answers j tests _ h.1
        ∙ rw (collect_group-lookup j gn (lookup gn answers) c groups, e) refl
  ]

  -- The test that is left of a group under test, by the end of its time and the outcome of the
  -- check.
  abbrev pub test_left : TestCase A R M E → Option E → Option (TestCase A R M E)
  test_left c outcome =
      if ltb c.test_until now then none else elim outcome [ none ↦ some c | some _ ↦ none ]

  -- The errors that the round finds in it.
  abbrev pub errors_found : TestCase A R M E → Option E → List E
  errors_found c outcome =
      if ltb c.test_until now then [] else elim outcome [ none ↦ [] | some e ↦ e ∷ [] ]

  -- A round that got an answer ends the test of a group whose time is over without an error, ends
  -- the test of a group whose check fails, with that error at the end of the group's record, and
  -- leaves any other group under test with its record unchanged.
  pub check_round-decides :
      (answers : Dict B) (ts : TestSuite (TestCase A R M E) E) (j : String) (c : TestCase A R M E)
      → UniqueKeys ts.rule_group_tests
      → lookup j ts.rule_group_tests ≡ some c
      → let ts' = check_round check now (some answers) ts in
        let outcome = check c now (lookup j answers) in
        (lookup j ts'.rule_group_tests ≡ test_left c outcome)
        × (errors_of j ts' ≡ errors_of j ts ++ errors_found c outcome)
  unfolding check_round lookup
  check_round-decides answers ts j c u h =
      let groups = collect_groups check now answers ts.rule_group_tests [] in
      let found = collect_groups-lookup answers j ts.rule_group_tests [] u in
      ground (
        arith,
        found,
        remove_groups-lookup j groups ts,
        remove_groups-errors j groups ts,
        contains-lookup j ts.rule_group_tests,
        contains-lookup j groups,
        append-nil (errors_of j ts),
      )

  latest_end-le :
      (j : String) (tests : Dict (TestCase A R M E)) (tu : ℕ) (c : TestCase A R M E)
      → (tu ≤ latest_end tests tu) × (lookup j tests ≡ some c → c.test_until ≤ latest_end tests tu)
  unfolding latest_end lookup
  latest_end-le j [] tu c = (omega arith, λ h. cc)
  latest_end-le j ((gn, d) ∷ tests) tu c =
      ground (arith, latest_end-le j tests (if ltb tu d.test_until then d.test_until else tu) c)

  -- The loops end: the first round that gets an answer after the suite's TestUntil leaves no group
  -- under test, so that isOver holds.
  pub check_round-is_over :
      (answers : Dict B) (ts : TestSuite (TestCase A R M E) E)
      → UniqueKeys ts.rule_group_tests
      → test_until_all ts < now
      → is_over (check_round check now (some answers) ts) ≡ true
  unfolding check_round is_over test_until_all lookup
  check_round-is_over answers ts u h =
      ap is_empty (empty_of_no_keys _ (λ j. no_key j (Option-cases (lookup j ts.rule_group_tests))))
    where
      groups : Dict (Option E)
      groups = collect_groups check now answers ts.rule_group_tests []

      no_key :
          (j : String)
          → (lookup j ts.rule_group_tests ≡ none)
            ⊎ ((c : TestCase A R M E) × (lookup j ts.rule_group_tests ≡ some c))
          → contains j (remove_groups groups ts).rule_group_tests ≡ false
      no_key j (inl e) =
          ground (arith, remove_groups-contains j groups ts, contains-lookup j ts.rule_group_tests)
      no_key j (inr (c, e)) = ground (
        arith,
        remove_groups-contains j groups ts,
        contains-lookup j groups,
        collect_groups-lookup answers j ts.rule_group_tests [] u,
        latest_end-le j ts.rule_group_tests 0 c,
      )
