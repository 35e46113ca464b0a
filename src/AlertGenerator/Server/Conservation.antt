-- ===== src/AlertGenerator/Server/Conservation.antt =====
-- What getPossibleAlert and missedAlertCleanup of alert_generator/server.go do with each alert.
use compliance.Base.{
  ◌+◌, ◌≡◌, refl, String, Bool, true, false, not, ◌&&◌, ◌||◌, List, [], ◌∷◌, ◌++◌, arith, ltb, Dict,
  insert, contains, count_if, count_if-append,
}
use compliance.AlertGenerator.Api.{Time, AlertApi}
use compliance.AlertGenerator.ExpectedAlert.{ExpectedAlert, can_be_ignored, should_be_ignored}
use compliance.AlertGenerator.Server.State.{
  AlertsServer, AllErrs, no_errs, get_err, update_err, contains-get_err, add_missed,
  add_missed_alerts,
}
use compliance.AlertGenerator.Server.Sweep.{
  last_instant, sweep_alerts, sweep_map, cleanup_alerts, cleanup_map, get_possible_alert,
  missed_alert_cleanup,
}

module _ {L : Type 0} where
  -- All alerts of the map.
  abbrev pub all_alerts : Dict (List (ExpectedAlert L)) → List (ExpectedAlert L)
  all_alerts [] = []
  all_alerts ((id, eas) ∷ m) = eas ++ all_alerts m

  -- An alert that the server may forget at `now`.
  abbrev excused : Time → ExpectedAlert L → Bool
  excused now ea = should_be_ignored ea || (ltb (last_instant ea) now && can_be_ignored ea)

  abbrev pub due : (ExpectedAlert L → Bool) → Time → ExpectedAlert L → Bool
  due p now ea = not (excused now ea) && p ea

  module _ (p : ExpectedAlert L → Bool) (now : Time) (lbls : String) where
    sweep_alerts-count :
        (id : String) (eas : List (ExpectedAlert L))
        → let s = sweep_alerts now lbls id eas in
          count_if (due p now) eas ≡ count_if p s.alerts + count_if p s.missed + count_if p s.kept
    unfolding sweep_alerts
    sweep_alerts-count id [] = refl
    sweep_alerts-count id (ea ∷ eas) = ground (arith, sweep_alerts-count id eas)

    sweep_map-count :
        (m : Dict (List (ExpectedAlert L)))
        → let s = sweep_map now lbls m in
          count_if (due p now) (all_alerts m)
          ≡ count_if p s.alerts + count_if p s.missed + count_if p (all_alerts s.expected)
    unfolding sweep_map
    sweep_map-count [] = refl
    sweep_map-count ((id, eas) ∷ m) =
        let s = sweep_alerts now lbls id eas in
        let rest = sweep_map now lbls m in
        omega (
          arith,
          sweep_map-count m,
          sweep_alerts-count id eas,
          count_if-append (due p now) eas (all_alerts m),
          count_if-append p s.alerts rest.alerts,
          count_if-append p s.missed rest.missed,
          count_if-append p s.kept (all_alerts rest.expected),
        )

  module _ (p : ExpectedAlert L → Bool) (now : Time) where
    cleanup_alerts-count :
        (eas : List (ExpectedAlert L))
        → let s = cleanup_alerts now eas in
          count_if (due p now) eas ≡ count_if p s.missed + count_if p s.kept
    unfolding cleanup_alerts
    cleanup_alerts-count [] = refl
    cleanup_alerts-count (ea ∷ eas) = ground (arith, cleanup_alerts-count eas)

    cleanup_map-count :
        (m : Dict (List (ExpectedAlert L)))
        → let s = cleanup_map now m in
          count_if (due p now) (all_alerts m)
          ≡ count_if p s.missed + count_if p (all_alerts s.expected)
    unfolding cleanup_map
    cleanup_map-count [] = refl
    cleanup_map-count ((id, eas) ∷ m) =
        let s = cleanup_alerts now eas in
        let rest = cleanup_map now m in
        omega (
          arith,
          cleanup_map-count m,
          cleanup_alerts-count eas,
          count_if-append (due p now) eas (all_alerts m),
          count_if-append p s.missed rest.missed,
          count_if-append p s.kept (all_alerts rest.expected),
        )

  -- The missed alerts on record, over all groups.
  abbrev pub all_missed : Dict (AllErrs L) → List (ExpectedAlert L)
  all_missed [] = []
  all_missed ((rg, e) ∷ m) = e.missed_alerts ++ all_missed m

  all_missed-insert :
      (p : ExpectedAlert L → Bool) (rg : String) (errs : Dict (AllErrs L))
      → contains rg errs ≡ false
      → count_if p (all_missed (insert rg no_errs errs)) ≡ count_if p (all_missed errs)
  unfolding insert contains
  all_missed-insert p rg [] h = refl
  all_missed-insert p rg ((j, e) ∷ m) h = ground (
    arith,
    all_missed-insert p rg m,
    count_if-append p e.missed_alerts (all_missed m),
    count_if-append p e.missed_alerts (all_missed (insert rg no_errs m)),
  )

  all_missed-get_err :
      (p : ExpectedAlert L → Bool) (rg : String) (errs : Dict (AllErrs L))
      → count_if p (all_missed (get_err rg errs)) ≡ count_if p (all_missed errs)
  unfolding get_err
  all_missed-get_err p rg errs = ground (arith, all_missed-insert p rg errs)

  all_missed-update_err :
      (p : ExpectedAlert L → Bool) (rg : String) (ea : ExpectedAlert L) (errs : Dict (AllErrs L))
      → contains rg errs ≡ true
      → count_if p (all_missed (update_err rg (add_missed ea) errs))
        ≡ count_if p (all_missed errs) + count_if p (ea ∷ [])
  unfolding update_err contains
  all_missed-update_err p rg ea [] h = cc
  all_missed-update_err p rg ea ((j, e) ∷ m) h = ground (
    arith,
    all_missed-update_err p rg ea m,
    count_if-append p e.missed_alerts (all_missed m),
    count_if-append p e.missed_alerts (ea ∷ []),
    count_if-append p e.missed_alerts (all_missed (update_err rg (add_missed ea) m)),
    count_if-append p (e.missed_alerts ++ ea ∷ []) (all_missed m),
  )

module _ {L : Type 0} (api : AlertApi L) (p : ExpectedAlert L → Bool) where
  all_missed-add_missed_alerts :
      (eas : List (ExpectedAlert L)) (errs : Dict (AllErrs L))
      → count_if p (all_missed (add_missed_alerts api eas errs))
        ≡ count_if p (all_missed errs) + count_if p eas
  unfolding add_missed_alerts
  all_missed-add_missed_alerts [] errs = omega arith
  all_missed-add_missed_alerts (ea ∷ eas) errs =
      let rg = api.get_label ea.alert.labels "rulegroup" in
      ground (
        arith,
        all_missed-add_missed_alerts eas (update_err rg (add_missed ea) (get_err rg errs)),
        all_missed-update_err p rg ea (get_err rg errs) (contains-get_err rg errs),
        all_missed-get_err p rg errs,
      )

  -- getPossibleAlert loses no expected alert: of every kind of alert (every test `p`), the ones
  -- that may not be forgotten at `now` and the ones on record as missed before the call are
  -- together as many as the candidates returned, the alerts still stored and the ones on record as
  -- missed after it.
  pub get_possible_alert_conserves :
      (now : Time) (lbls : String) (s : AlertsServer L)
      → let (exp, s') = get_possible_alert api now lbls s in
        count_if (due p now) (all_alerts s.expected_alerts) + count_if p (all_missed s.errs)
        ≡ count_if p exp
          + count_if p (all_alerts s'.expected_alerts)
          + count_if p (all_missed s'.errs)
  unfolding get_possible_alert
  get_possible_alert_conserves now lbls s = omega (
    arith,
    sweep_map-count p now lbls s.expected_alerts,
    all_missed-add_missed_alerts (sweep_map now lbls s.expected_alerts).missed s.errs,
  )

  -- missedAlertCleanup loses no expected alert: of every kind of alert, the ones that may not be
  -- forgotten at `now` and the ones on record as missed before the call are together as many as
  -- the alerts still stored and the ones on record as missed after it.
  pub missed_alert_cleanup_conserves :
      (now : Time) (s : AlertsServer L)
      → let s' = missed_alert_cleanup api now s in
        count_if (due p now) (all_alerts s.expected_alerts) + count_if p (all_missed s.errs)
        ≡ count_if p (all_alerts s'.expected_alerts) + count_if p (all_missed s'.errs)
  unfolding missed_alert_cleanup
  missed_alert_cleanup_conserves now s = omega (
    arith,
    cleanup_map-count p now s.expected_alerts,
    all_missed-add_missed_alerts (cleanup_map now s.expected_alerts).missed s.errs,
  )
