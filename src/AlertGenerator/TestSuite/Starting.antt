-- ===== src/AlertGenerator/TestSuite/Starting.antt =====
-- Start of alert_generator/testsuite.go: the expected alerts of the cases go to the server, and the
-- loops start. Starting the server and the remote writer, the pause before the loops and log lines
-- are left out; the start time that the writer returns is an argument.
use mathlib.Core.List.{Perm}
use mathlib.Core.List.Perm
use compliance.Base.{
  ℕ, ◌≡◌, String, Bool, true, false, List, [], ◌∷◌, ◌++◌, arith, str_eq, str_eq_iff, Dict, lookup,
  insert, append_assoc, append-nil, sort_slice, sort_slice-perm, if◌then◌else◌, Bool-cases, inl,
  inr, subst, sym,
}
use compliance.AlertGenerator.Api.{AlertApi}
use compliance.AlertGenerator.ExpectedAlert.{ExpectedAlert}
use compliance.AlertGenerator.Server.State.{
  ordering_less, file_alerts, sort_seen, add_expected_alerts,
}
use compliance.AlertGenerator.Server.Filing.{
  stored, stored-insert, IsWellStored, add_expected_alerts-IsWellStored,
}
use compliance.AlertGenerator.TestSuite.State.{Settings}

-- The loops that Start runs in goroutines.
pub data Loop : Type 0 where
  check_alerts_loop check_rules_loop check_metrics_loop monitor_alert_reception : Loop

abbrev unless : Bool → Loop → List Loop
unless true loop = []
unless false loop = loop ∷ []

-- The loops that Start starts.
unfoldable started_loops : Settings → List Loop
started_loops s =
    unless s.disable_alerts_api_check check_alerts_loop
    ++ (unless s.disable_rules_api_check check_rules_loop
        ++ (unless s.disable_alerts_metrics_check check_metrics_loop
            ++ unless s.disable_alerts_reception_check monitor_alert_reception))

module _ {L : Type 0} (api : AlertApi L) where
  -- What Start uses of a case: ExpectedAlerts, after Init with the start time.
  abbrev pub Startable : Type 0
  Startable = ℕ → List (ExpectedAlert L)

  -- The loop of Start over ruleGroupTests, in any order.
  unfoldable pub start_cases :
      ℕ → List Startable → Dict (List (ExpectedAlert L)) → Dict (List (ExpectedAlert L))
  unfolding add_expected_alerts
  start_cases zero_time [] m = m
  start_cases zero_time (c ∷ tests) m =
      start_cases zero_time tests (add_expected_alerts api (c zero_time) m)

  -- The alerts whose labels have the text.
  abbrev with_text : String → List (ExpectedAlert L) → List (ExpectedAlert L)
  with_text id [] = []
  with_text id (ea ∷ eas) =
      if str_eq (api.labels_string ea.alert.labels) id
      then ea ∷ with_text id eas
      else with_text id eas

  -- The alerts of all cases with the text.
  abbrev pub all_with_text : String → ℕ → List Startable → List (ExpectedAlert L)
  all_with_text id zero_time [] = []
  all_with_text id zero_time (c ∷ tests) =
      with_text id (c zero_time) ++ all_with_text id zero_time tests

  stored-file_alerts :
      (id : String) (eas : List (ExpectedAlert L)) (m : Dict (List (ExpectedAlert L)))
      (seen : Dict (Unit {0}))
      → stored id (file_alerts api eas (m, seen)).0 ≡ stored id m ++ with_text id eas
  unfolding file_alerts
  stored-file_alerts id [] m seen = ground (arith, append-nil (stored id m))
  stored-file_alerts id (ea ∷ eas) m seen =
      let k = api.labels_string ea.alert.labels in
      ground (
        arith,
        stored-file_alerts id eas (insert k (stored k m ++ ea ∷ []) m) (insert k tt seen),
        stored-insert k id (stored k m ++ ea ∷ []) m,
        str_eq_iff k id,
        append_assoc (stored id m) (ea ∷ []) (with_text id eas),
      )

  sort_entry-perm :
      (id k : String) (m : Dict (List (ExpectedAlert L)))
      → Perm (stored id (insert k (sort_slice ordering_less (stored k m)) m)) (stored id m)
  sort_entry-perm id k m = elim (Bool-cases (str_eq k id)) [
    | inl e ↦
        let same : k ≡ id = (str_eq_iff k id).0 e in
        rw (stored-insert k id (sort_slice ordering_less (stored k m)) m, e)
          (subst (λ j. Perm (sort_slice ordering_less (stored k m)) (stored j m)) same
            (sort_slice-perm ordering_less (stored k m)))
    | inr e ↦
        rw (stored-insert k id (sort_slice ordering_less (stored k m)) m, e)
          (Perm.refl (stored id m))
  ]

  sort_seen-perm :
      (id : String) (seen : Dict (Unit {0})) (m : Dict (List (ExpectedAlert L)))
      → Perm (stored id (sort_seen seen m)) (stored id m)
  unfolding sort_seen
  sort_seen-perm id [] m = Perm.refl _
  sort_seen-perm id ((k, u) ∷ seen) m =
      Perm.trans (sort_seen-perm id seen (insert k (sort_slice ordering_less (stored k m)) m))
        (sort_entry-perm id k m)

  add_expected_alerts-perm :
      (id : String) (eas : List (ExpectedAlert L)) (m : Dict (List (ExpectedAlert L)))
      → Perm (stored id (add_expected_alerts api eas m)) (stored id m ++ with_text id eas)
  unfolding add_expected_alerts
  add_expected_alerts-perm id eas m =
      let filed = file_alerts api eas (m, []) in
      subst (Perm (stored id (sort_seen filed.1 filed.0))) (stored-file_alerts id eas m [])
        (sort_seen-perm id filed.1 filed.0)

  start_cases-perm :
      (id : String) (zero_time : ℕ) (tests : List Startable) (m : Dict (List (ExpectedAlert L)))
      → Perm
          (stored id (start_cases zero_time tests m))
          (stored id m ++ all_with_text id zero_time tests)
  unfolding start_cases
  start_cases-perm id zero_time [] m =
      subst (Perm (stored id m)) (sym (append-nil (stored id m))) (Perm.refl _)
  start_cases-perm id zero_time (c ∷ tests) m =
      let m' = add_expected_alerts api (c zero_time) m in
      let rest = all_with_text id zero_time tests in
      Perm.trans (start_cases-perm id zero_time tests m') (
        subst (Perm (stored id m' ++ rest))
          (append_assoc (stored id m) (with_text id (c zero_time)) rest)
          (Perm.append_right rest (add_expected_alerts-perm id (c zero_time) m)))

  start_cases-IsWellStored :
      (zero_time : ℕ) (tests : List Startable) (m : Dict (List (ExpectedAlert L)))
      → IsWellStored api m
      → IsWellStored api (start_cases zero_time tests m)
  unfolding start_cases
  start_cases-IsWellStored zero_time [] m h = h
  start_cases-IsWellStored zero_time (c ∷ tests) m h =
      start_cases-IsWellStored zero_time tests (add_expected_alerts api (c zero_time) m)
        (add_expected_alerts-IsWellStored api (c zero_time) m h)

  -- Start hands the expected alerts of all cases to the server, whatever the order in which it
  -- visits the cases: afterwards the list under a text holds exactly the alerts of the cases whose
  -- labels have this text, each as often as the cases expect it, and every list is in the order of
  -- OrderingID.
  pub start_cases-stores :
      (zero_time : ℕ) (tests : List Startable)
      → IsWellStored api (start_cases zero_time tests [])
        × ((id : String)
            → Perm (stored id (start_cases zero_time tests [])) (all_with_text id zero_time tests))
  unfolding lookup
  start_cases-stores zero_time tests = (
    start_cases-IsWellStored zero_time tests [] (record { filed = λ id. tt; ordered = λ id. tt }),
    (λ id. start_cases-perm id zero_time tests []),
  )
