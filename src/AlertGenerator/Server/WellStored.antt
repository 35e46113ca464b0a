-- ===== src/AlertGenerator/Server/WellStored.antt =====
-- The operations of alert_generator/server.go and the order of the stored alerts.
use compliance.Base.{
  ℕ, ◌≡◌, subst, String, List, [], ◌∷◌, some, arith, str_eq_iff, inl, inr, Dict, lookup, insert,
  All, Above, Option-cases,
}
use compliance.AlertGenerator.Api.{Time, AlertApi, Alert}
use compliance.AlertGenerator.ExpectedAlert.{ExpectedAlert}
use compliance.AlertGenerator.Server.State.{AlertsServer, add_expected_alerts}
use compliance.AlertGenerator.Server.Sweep.{sweep_map, get_possible_alert, missed_alert_cleanup}
use compliance.AlertGenerator.Server.Handler.{
  Progress, serve_alert, serve_alerts, adjust_resends, adjust, finish, receive, start_progress,
}
use compliance.AlertGenerator.Server.Reports.{serve_candidates-expected, sweep_alerts-All}
use compliance.AlertGenerator.Server.Filing.{
  IsOrdered, stored, stored-insert, stored-sweep_map, stored-cleanup_map, sweep_alerts-IsOrdered,
  cleanup_alerts-IsOrdered, cleanup_alerts-All, HasText, IsWellStored,
  add_expected_alerts-IsWellStored,
}

module _ {L : Type 0} (api : AlertApi L) where
  sweep_map-IsWellStored :
      (now : Time) (lbls : String) (m : Dict (List (ExpectedAlert L)))
      → IsWellStored api m
      → IsWellStored api (sweep_map now lbls m).expected
  sweep_map-IsWellStored now lbls m h = record {
    filed = λ id.
        rw (stored-sweep_map now lbls id m)
          (sweep_alerts-All (HasText api id) now lbls id (stored id m) (h.filed id)).2;
    ordered = λ id.
        rw (stored-sweep_map now lbls id m)
          (sweep_alerts-IsOrdered now lbls id (stored id m) (h.ordered id));
  }

  -- missedAlertCleanup keeps every alert under the text of its labels and every list in the order
  -- of OrderingID.
  pub missed_alert_cleanup-IsWellStored :
      (now : Time) (s : AlertsServer L)
      → IsWellStored api s.expected_alerts
      → IsWellStored api (missed_alert_cleanup api now s).expected_alerts
  unfolding missed_alert_cleanup
  missed_alert_cleanup-IsWellStored now s h = record {
    filed = λ id.
        rw (stored-cleanup_map now id s.expected_alerts)
          (cleanup_alerts-All (HasText api id) now (stored id s.expected_alerts) (h.filed id));
    ordered = λ id.
        rw (stored-cleanup_map now id s.expected_alerts)
          (cleanup_alerts-IsOrdered now (stored id s.expected_alerts) (h.ordered id));
  }

  serve_alert-IsWellStored :
      (now : Time) (al : Alert L) (pr : Progress L)
      → IsWellStored api pr.server.expected_alerts
      → IsWellStored api (serve_alert api now al pr).server.expected_alerts
  unfolding serve_alert get_possible_alert
  serve_alert-IsWellStored now al pr h =
      let lbls = api.labels_string al.labels in
      let m = sweep_map now lbls pr.server.expected_alerts in
      rw (serve_candidates-expected api now al m.alerts)
        (sweep_map-IsWellStored now lbls pr.server.expected_alerts h)

  serve_alerts-IsWellStored :
      (now : Time) (als : List (Alert L)) (pr : Progress L)
      → IsWellStored api pr.server.expected_alerts
      → IsWellStored api (serve_alerts api now als pr).server.expected_alerts
  unfolding serve_alerts
  serve_alerts-IsWellStored now [] pr h = h
  serve_alerts-IsWellStored now (al ∷ als) pr h =
      serve_alerts-IsWellStored now als _ (serve_alert-IsWellStored now al pr h)

  adjust_resends-All :
      (now : Time) (labels : L) (id : String) (eas : List (ExpectedAlert L))
      → All (HasText api id) eas
      → All (HasText api id) (adjust_resends api now labels eas)
  unfolding adjust_resends
  adjust_resends-All now labels id [] h = tt
  adjust_resends-All now labels id (ea ∷ eas) h =
      ground (arith, adjust_resends-All now labels id eas h.1)

  adjust_resends-Above :
      (now : Time) (labels : L) (n : ℕ) (eas : List (ExpectedAlert L))
      → Above (λ ea. ea.ordering_id) n eas
      → Above (λ ea. ea.ordering_id) n (adjust_resends api now labels eas)
  unfolding adjust_resends
  adjust_resends-Above now labels n [] h = tt
  adjust_resends-Above now labels n (ea ∷ eas) h =
      ground (arith, adjust_resends-Above now labels n eas h.1)

  adjust_resends-IsOrdered :
      (now : Time) (labels : L) (eas : List (ExpectedAlert L))
      → IsOrdered eas
      → IsOrdered (adjust_resends api now labels eas)
  unfolding adjust_resends
  adjust_resends-IsOrdered now labels [] h = tt
  adjust_resends-IsOrdered now labels (ea ∷ eas) h = ground (
    arith,
    adjust_resends-IsOrdered now labels eas h.1,
    adjust_resends-Above now labels ea.ordering_id eas h.0,
  )

  adjust_entry-IsWellStored :
      (now : Time) (id : String) (labels : L) (m : Dict (List (ExpectedAlert L)))
      (eas : List (ExpectedAlert L))
      → lookup id m ≡ some eas
      → IsWellStored api m
      → IsWellStored api (insert id (adjust_resends api now labels eas) m)
  adjust_entry-IsWellStored now id labels m eas e h = record {
    filed = λ j. ground (
      arith,
      stored-insert id j (adjust_resends api now labels eas) m,
      str_eq_iff id j,
      h.filed j,
      adjust_resends-All now labels j eas,
    );
    ordered = λ j. ground (
      arith,
      stored-insert id j (adjust_resends api now labels eas) m,
      str_eq_iff id j,
      h.ordered j,
      adjust_resends-IsOrdered now labels eas,
    );
  }

  adjust-IsWellStored :
      (now : Time) (success : Dict (ExpectedAlert L)) (m m' : Dict (List (ExpectedAlert L)))
      → adjust api now success m ≡ some m'
      → IsWellStored api m
      → IsWellStored api m'
  unfolding adjust
  adjust-IsWellStored now [] m m' e h =
      let same : m ≡ m' = ground arith in subst (IsWellStored api) same h
  adjust-IsWellStored now ((id, sa) ∷ success) m m' e h = elim (Option-cases (lookup id m)) [
    | inl p ↦ cc (rw (p, adjust) at e)
    | inr (eas, p) ↦
        adjust-IsWellStored now success (insert id (adjust_resends api now sa.alert.labels eas) m)
          m' (ground arith) (adjust_entry-IsWellStored now id sa.alert.labels m eas p h)
  ]

  finish-IsWellStored :
      (now : Time) (pr : Progress L) (s' : AlertsServer L)
      → finish api now pr ≡ some s'
      → IsWellStored api pr.server.expected_alerts
      → IsWellStored api s'.expected_alerts
  unfolding finish
  finish-IsWellStored now pr s' e h =
      let m = add_expected_alerts api pr.add_back pr.server.expected_alerts in
      adjust-IsWellStored now pr.success m s'.expected_alerts (ground arith)
        (add_expected_alerts-IsWellStored api pr.add_back pr.server.expected_alerts h)

  -- A request keeps every expected alert under the text of its labels and every list in the order
  -- of OrderingID, although alerts are taken out, put back and given new times on the way.
  pub receive-IsWellStored :
      (now : Time) (als : List (Alert L)) (s s' : AlertsServer L)
      → receive api now als s ≡ some s'
      → IsWellStored api s.expected_alerts
      → IsWellStored api s'.expected_alerts
  unfolding receive
  receive-IsWellStored now als s s' e h =
      finish-IsWellStored now _ s' e (serve_alerts-IsWellStored now als (start_progress api s) h)
