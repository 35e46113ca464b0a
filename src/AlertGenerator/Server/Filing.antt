-- ===== src/AlertGenerator/Server/Filing.antt =====
-- How addExpectedAlerts of alert_generator/server.go stores the alerts.
use compliance.Base.{
  ℕ, ◌≡◌, refl, String, true, false, List, [], ◌∷◌, ◌++◌, arith, str_eq, str_eq_iff, ◌⊎◌, inl, inr,
  or_nil, Dict, lookup, lookup-insert, insert, contains, contains-insert, All, All-append,
  All-sort_slice, sort_slice, IsSortedBy, Above, sort_slice-IsSortedBy, if◌then◌else◌, Bool-cases,
}
use compliance.AlertGenerator.Api.{Time, AlertApi}
use compliance.AlertGenerator.ExpectedAlert.{ExpectedAlert}
use compliance.AlertGenerator.Server.State.{
  ordering_less, file_alerts, sort_seen, add_expected_alerts,
}
use compliance.AlertGenerator.Server.Sweep.{sweep_alerts, sweep_map, cleanup_alerts, cleanup_map}

module _ {L : Type 0} where
  abbrev pub IsOrdered : List (ExpectedAlert L) → Type 0
  IsOrdered = IsSortedBy (λ ea. ea.ordering_id)

  -- The alerts stored under a text.
  abbrev pub stored : String → Dict (List (ExpectedAlert L)) → List (ExpectedAlert L)
  stored id m = or_nil (lookup id m)

  pub stored-insert :
      (k j : String) (v : List (ExpectedAlert L)) (m : Dict (List (ExpectedAlert L)))
      → stored j (insert k v m) ≡ (if str_eq k j then v else stored j m)
  stored-insert k j v m = ground (arith, lookup-insert k j v m)

  pub stored-sweep_map :
      (now : Time) (lbls id : String) (m : Dict (List (ExpectedAlert L)))
      → stored id (sweep_map now lbls m).expected ≡ (sweep_alerts now lbls id (stored id m)).kept
  unfolding sweep_map lookup sweep_alerts
  stored-sweep_map now lbls id [] = refl
  stored-sweep_map now lbls id ((j, eas) ∷ m) =
      ground (arith, str_eq_iff j id, stored-sweep_map now lbls id m)

  pub stored-cleanup_map :
      (now : Time) (id : String) (m : Dict (List (ExpectedAlert L)))
      → stored id (cleanup_map now m).expected ≡ (cleanup_alerts now (stored id m)).kept
  unfolding cleanup_map lookup cleanup_alerts
  stored-cleanup_map now id [] = refl
  stored-cleanup_map now id ((j, eas) ∷ m) =
      ground (arith, str_eq_iff j id, stored-cleanup_map now id m)

  sweep_alerts-Above :
      (now : Time) (lbls id : String) (n : ℕ) (eas : List (ExpectedAlert L))
      → Above (λ ea. ea.ordering_id) n eas
      → Above (λ ea. ea.ordering_id) n (sweep_alerts now lbls id eas).kept
  unfolding sweep_alerts
  sweep_alerts-Above now lbls id n [] h = tt
  sweep_alerts-Above now lbls id n (ea ∷ eas) h =
      ground (arith, sweep_alerts-Above now lbls id n eas h.1)

  pub sweep_alerts-IsOrdered :
      (now : Time) (lbls id : String) (eas : List (ExpectedAlert L))
      → IsOrdered eas
      → IsOrdered (sweep_alerts now lbls id eas).kept
  unfolding sweep_alerts
  sweep_alerts-IsOrdered now lbls id [] h = tt
  sweep_alerts-IsOrdered now lbls id (ea ∷ eas) h = ground (
    arith,
    sweep_alerts-IsOrdered now lbls id eas h.1,
    sweep_alerts-Above now lbls id ea.ordering_id eas h.0,
  )

  cleanup_alerts-Above :
      (now : Time) (n : ℕ) (eas : List (ExpectedAlert L))
      → Above (λ ea. ea.ordering_id) n eas
      → Above (λ ea. ea.ordering_id) n (cleanup_alerts now eas).kept
  unfolding cleanup_alerts
  cleanup_alerts-Above now n [] h = tt
  cleanup_alerts-Above now n (ea ∷ eas) h = ground (arith, cleanup_alerts-Above now n eas h.1)

  pub cleanup_alerts-IsOrdered :
      (now : Time) (eas : List (ExpectedAlert L))
      → IsOrdered eas
      → IsOrdered (cleanup_alerts now eas).kept
  unfolding cleanup_alerts
  cleanup_alerts-IsOrdered now [] h = tt
  cleanup_alerts-IsOrdered now (ea ∷ eas) h =
      ground (
        arith,
        cleanup_alerts-IsOrdered now eas h.1,
        cleanup_alerts-Above now ea.ordering_id eas h.0,
      )

  pub cleanup_alerts-All :
      (P : ExpectedAlert L → Type 0) (now : Time) (eas : List (ExpectedAlert L))
      → All P eas
      → All P (cleanup_alerts now eas).kept
  unfolding cleanup_alerts
  cleanup_alerts-All P now [] h = tt
  cleanup_alerts-All P now (ea ∷ eas) h = ground (arith, cleanup_alerts-All P now eas h.1)

  -- The lists under texts that were not seen are in order.
  abbrev OrderedExcept : Dict (Unit {0}) → Dict (List (ExpectedAlert L)) → Type 0
  OrderedExcept seen m = (id : String) → contains id seen ≡ false → IsOrdered (stored id m)

  sort_seen-IsOrdered :
      (seen : Dict (Unit {0})) (m : Dict (List (ExpectedAlert L)))
      → OrderedExcept seen m
      → (id : String) → IsOrdered (stored id (sort_seen seen m))
  unfolding sort_seen contains
  sort_seen-IsOrdered [] m h id = h id refl
  sort_seen-IsOrdered ((k, u) ∷ seen) m h id =
      sort_seen-IsOrdered seen _ (λ j c. sorted_entry j c (Bool-cases (str_eq k j))) id
    where
      sorted_entry :
          (j : String)
          → contains j seen ≡ false
          → (str_eq k j ≡ true) ⊎ (str_eq k j ≡ false)
          → IsOrdered (stored j (insert k (sort_slice ordering_less (stored k m)) m))
      sorted_entry j c (inl e) =
          rw (stored-insert k j (sort_slice ordering_less (stored k m)) m, e)
            (sort_slice-IsSortedBy (λ (ea : ExpectedAlert L). ea.ordering_id) (stored k m))
      sorted_entry j c (inr e) =
          rw (stored-insert k j (sort_slice ordering_less (stored k m)) m, e) (h j (rw e c))

  sort_seen-All :
      (P : String → ExpectedAlert L → Type 0) (seen : Dict (Unit {0}))
      (m : Dict (List (ExpectedAlert L)))
      → ((id : String) → All (P id) (stored id m))
      → (id : String) → All (P id) (stored id (sort_seen seen m))
  unfolding sort_seen
  sort_seen-All P [] m h id = h id
  sort_seen-All P ((k, u) ∷ seen) m h id = sort_seen-All P seen _ (λ j. sorted_entry j) id
    where
      sorted_entry :
          (j : String) → All (P j) (stored j (insert k (sort_slice ordering_less (stored k m)) m))
      sorted_entry j = ground (
        arith,
        stored-insert k j (sort_slice ordering_less (stored k m)) m,
        str_eq_iff k j,
        h j,
        All-sort_slice ordering_less (P j) (stored j m) (h j),
      )

module _ {L : Type 0} (api : AlertApi L) where
  -- The alert's labels have the given text.
  abbrev pub HasText : String → ExpectedAlert L → Type 0
  HasText id ea = api.labels_string ea.alert.labels ≡ id

  -- Each alert is stored under the text of its labels, and each list is in order.
  pub record IsWellStored (m : Dict (List (ExpectedAlert L))) : Type 0 where
    pub filed : (id : String) → All (HasText id) (stored id m)
    pub ordered : (id : String) → IsOrdered (stored id m)

  file_alerts-filed :
      (eas : List (ExpectedAlert L)) (m : Dict (List (ExpectedAlert L))) (seen : Dict (Unit {0}))
      → ((id : String) → All (HasText id) (stored id m))
      → (id : String) → All (HasText id) (stored id (file_alerts api eas (m, seen)).0)
  unfolding file_alerts
  file_alerts-filed [] m seen h id = h id
  file_alerts-filed (ea ∷ eas) m seen h id = file_alerts-filed eas _ _ (λ j. filed j) id
    where
      k : String
      k = api.labels_string ea.alert.labels

      filed : (j : String) → All (HasText j) (stored j (insert k (stored k m ++ ea ∷ []) m))
      filed j = ground (
        arith,
        stored-insert k j (stored k m ++ ea ∷ []) m,
        str_eq_iff k j,
        h j,
        All-append (HasText k) (stored k m) (ea ∷ []) (h k) (refl, tt),
      )

  file_alerts-OrderedExcept :
      (eas : List (ExpectedAlert L)) (m : Dict (List (ExpectedAlert L))) (seen : Dict (Unit {0}))
      → OrderedExcept seen m
      → let (m', seen') = file_alerts api eas (m, seen) in OrderedExcept seen' m'
  unfolding file_alerts
  file_alerts-OrderedExcept [] m seen h = h
  file_alerts-OrderedExcept (ea ∷ eas) m seen h =
      file_alerts-OrderedExcept eas _ _ (λ j c. others j c)
    where
      k : String
      k = api.labels_string ea.alert.labels

      others :
          (j : String)
          → contains j (insert k tt seen) ≡ false
          → IsOrdered (stored j (insert k (stored k m ++ ea ∷ []) m))
      others j c =
          ground
            (arith, stored-insert k j (stored k m ++ ea ∷ []) m, contains-insert k j tt seen, h j)

  -- addExpectedAlerts keeps every alert under the text of its labels and every list in the order
  -- of OrderingID.
  pub add_expected_alerts-IsWellStored :
      (eas : List (ExpectedAlert L)) (m : Dict (List (ExpectedAlert L)))
      → IsWellStored m
      → IsWellStored (add_expected_alerts api eas m)
  unfolding add_expected_alerts
  add_expected_alerts-IsWellStored eas m h = record {
    filed =
        sort_seen-All HasText (file_alerts api eas (m, [])).1 _
          (file_alerts-filed eas m [] h.filed);
    ordered =
        sort_seen-IsOrdered (file_alerts api eas (m, [])).1 _
          (file_alerts-OrderedExcept eas m [] (λ id _. h.ordered id));
  }
