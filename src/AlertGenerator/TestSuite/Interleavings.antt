-- ===== src/AlertGenerator/TestSuite/Interleavings.antt =====
-- The checking loops run as goroutines. Their rounds take the lock for the reading and for the
-- removal separately, so rounds of different loops may overlap: a round removes groups that it
-- chose from an earlier state. A step is therefore one call of removeGroups with any groups.
use compliance.Base.{
  ◌≤◌, ◌≡◌, refl, String, true, false, [], ◌∷◌, Option, none, some, arith, length, length-append,
  Dict, lookup, contains, UniqueKeys, UniqueKeys-erase, append-nil, contains-lookup, ◌∙◌,
}
use compliance.AlertGenerator.TestSuite.State.{
  TestSuite, errors_of, remove_group, remove_groups, stop,
}
use compliance.AlertGenerator.TestSuite.Groups.{
  new_errors, remove_groups-contains, remove_groups-errors,
}

length-new_errors : {E : Type 0} (o : Option (Option E)) → length (new_errors o) ≤ 1
length-new_errors none = omega arith
length-new_errors (some none) = omega arith
length-new_errors (some (some e)) = omega arith

module _ {C E : Type 0} where
  -- What a goroutine does to the state: removeGroups or Stop.
  pub data Step (ts : TestSuite C E) : TestSuite C E → Type 0 where
    removes : (groups : Dict (Option E)) → Step ts (remove_groups groups ts)
    stops : Step ts (stop ts)

  pub data Reach (ts : TestSuite C E) : TestSuite C E → Type 0 where
    start : Reach ts ts
    next : {u v : TestSuite C E} → Reach ts u → Step u v → Reach ts v

  pub record IsConsistent (ts : TestSuite C E) : Type 0 where
    pub unique : UniqueKeys ts.rule_group_tests
    pub clean : (gn : String) → contains gn ts.rule_group_tests ≡ true → errors_of gn ts ≡ []
    pub at_most_one : (gn : String) → length (errors_of gn ts) ≤ 1

  remove_group-UniqueKeys :
      (gn : String) (err : Option E) (ts : TestSuite C E)
      → UniqueKeys ts.rule_group_tests
      → UniqueKeys (remove_group gn err ts).rule_group_tests
  unfolding remove_group
  remove_group-UniqueKeys gn err ts h = ground (arith, UniqueKeys-erase gn ts.rule_group_tests h)

  remove_groups-UniqueKeys :
      (groups : Dict (Option E)) (ts : TestSuite C E)
      → UniqueKeys ts.rule_group_tests
      → UniqueKeys (remove_groups groups ts).rule_group_tests
  unfolding remove_groups
  remove_groups-UniqueKeys [] ts h = h
  remove_groups-UniqueKeys ((gn, err) ∷ groups) ts h =
      remove_groups-UniqueKeys groups _ (remove_group-UniqueKeys gn err ts h)

  remove_groups-IsConsistent :
      (groups : Dict (Option E)) (ts : TestSuite C E)
      → IsConsistent ts
      → IsConsistent (remove_groups groups ts)
  remove_groups-IsConsistent groups ts h = record {
    unique = remove_groups-UniqueKeys groups ts h.unique;
    clean = λ gn c. ground (
      arith,
      remove_groups-contains gn groups ts,
      remove_groups-errors gn groups ts,
      contains-lookup gn groups,
      append-nil (errors_of gn ts),
      h.clean gn,
    );
    at_most_one = λ gn. ground (
      arith,
      remove_groups-errors gn groups ts,
      length-append (errors_of gn ts) (new_errors (lookup gn groups)),
      length-new_errors (lookup gn groups),
      h.clean gn,
      h.at_most_one gn,
    );
  }

  Step-IsConsistent : {t u : TestSuite C E} → Step t u → IsConsistent t → IsConsistent u
  unfolding stop
  Step-IsConsistent {t} (removes groups) h = remove_groups-IsConsistent groups t h
  Step-IsConsistent {t} stops h = ground arith

  -- However the loops interleave, starting from a consistent state no group under test has an
  -- error on record and no group ever has more than one.
  pub Reach-IsConsistent : {t u : TestSuite C E} → IsConsistent t → Reach t u → IsConsistent u
  Reach-IsConsistent h start = h
  Reach-IsConsistent h (next r s) = Step-IsConsistent s (Reach-IsConsistent h r)

  -- A group whose test failed stays failed: its recorded errors are never changed again.
  Step-errors :
      {t u : TestSuite C E} (gn : String)
      → contains gn t.rule_group_tests ≡ false
      → Step t u
      → (errors_of gn u ≡ errors_of gn t) × (contains gn u.rule_group_tests ≡ false)
  unfolding stop
  Step-errors {t} gn h (removes groups) =
      ground (arith, remove_groups-errors gn groups t, remove_groups-contains gn groups t)
  Step-errors {t} gn h stops = ground arith

  -- The verdict on a group is final: once it is no longer under test, no interleaving of the loops
  -- puts it back or changes its errors.
  pub Reach-final :
      {t u : TestSuite C E} (gn : String)
      → contains gn t.rule_group_tests ≡ false
      → Reach t u
      → (errors_of gn u ≡ errors_of gn t) × (contains gn u.rule_group_tests ≡ false)
  Reach-final gn h start = (refl, h)
  Reach-final gn h (next r s) =
      let before = Reach-final gn h r in
      let after = Step-errors gn before.1 s in (after.0 ∙ before.0, after.1)
