-- ===== src/AlertGenerator/Server/Sweep.antt =====
-- alert_generator/server.go: getPossibleAlert and missedAlertCleanup, the loops that sort the
-- expected alerts into candidates, missed ones and ones that stay.
use compliance.Base.{◌+◌, ◌*◌, String, ◌&&◌, List, [], ◌∷◌, ◌++◌, str_eq, ltb, if◌then◌else◌, Dict}
use compliance.AlertGenerator.Api.{Time, AlertApi}
use compliance.AlertGenerator.ExpectedAlert.{
  ExpectedAlert, max_rtt, can_be_ignored, should_be_ignored,
}
use compliance.AlertGenerator.Server.State.{AlertsServer, add_missed_alerts}

-- The lists that the loop over one entry fills: `alerts`, `missedAlerts` and `newExpAlerts`.
pub record Swept (L : Type 0) : Type 0 where
  pub alerts : List (ExpectedAlert L)
  pub missed : List (ExpectedAlert L)
  pub kept : List (ExpectedAlert L)

-- The same for the whole map.
pub record SweptMap (L : Type 0) : Type 0 where
  pub alerts : List (ExpectedAlert L)
  pub missed : List (ExpectedAlert L)
  pub expected : Dict (List (ExpectedAlert L))

module _ {L : Type 0} where
  -- The last instant of an expected alert: its tolerance and twice the request time after Ts.
  abbrev pub last_instant : ExpectedAlert L → Time
  last_instant ea = ea.ts + (ea.time_tolerance + 2 * max_rtt)

  -- The inner loop of getPossibleAlert.
  unfoldable pub sweep_alerts : Time → String → String → List (ExpectedAlert L) → Swept L
  sweep_alerts now lbls id [] = record { alerts = []; missed = []; kept = [] }
  sweep_alerts now lbls id (ea ∷ eas) =
      let s = sweep_alerts now lbls id eas in
      if should_be_ignored ea
      then s
      else if ltb (last_instant ea) now
      then (if can_be_ignored ea then s else record s { missed = ea ∷ s.missed })
      else if str_eq id lbls && (ltb ea.ts now && ltb now (last_instant ea))
      then record s { alerts = ea ∷ s.alerts }
      else record s { kept = ea ∷ s.kept }

  -- The outer loop of getPossibleAlert.
  unfoldable pub sweep_map : Time → String → Dict (List (ExpectedAlert L)) → SweptMap L
  sweep_map now lbls [] = record { alerts = []; missed = []; expected = [] }
  sweep_map now lbls ((id, eas) ∷ m) =
      let s = sweep_alerts now lbls id eas in
      let rest = sweep_map now lbls m in
      record {
        alerts = s.alerts ++ rest.alerts;
        missed = s.missed ++ rest.missed;
        expected = (id, s.kept) ∷ rest.expected;
      }

  -- The inner loop of missedAlertCleanup.
  unfoldable pub cleanup_alerts : Time → List (ExpectedAlert L) → Swept L
  cleanup_alerts now [] = record { alerts = []; missed = []; kept = [] }
  cleanup_alerts now (ea ∷ eas) =
      let s = cleanup_alerts now eas in
      if should_be_ignored ea
      then s
      else if ltb (last_instant ea) now
      then (if can_be_ignored ea then s else record s { missed = ea ∷ s.missed })
      else record s { kept = ea ∷ s.kept }

  -- The outer loop of missedAlertCleanup.
  unfoldable pub cleanup_map : Time → Dict (List (ExpectedAlert L)) → SweptMap L
  cleanup_map now [] = record { alerts = []; missed = []; expected = [] }
  cleanup_map now ((id, eas) ∷ m) =
      let s = cleanup_alerts now eas in
      let rest = cleanup_map now m in
      record {
        alerts = [];
        missed = s.missed ++ rest.missed;
        expected = (id, s.kept) ∷ rest.expected;
      }

module _ {L : Type 0} (api : AlertApi L) where
  -- getPossibleAlert: the candidates, and the server without them and without old alerts.
  unfoldable pub get_possible_alert :
      Time → String → AlertsServer L → List (ExpectedAlert L) × AlertsServer L
  get_possible_alert now lbls s =
      let m = sweep_map now lbls s.expected_alerts in
      (
        m.alerts,
        record s { expected_alerts = m.expected; errs = add_missed_alerts api m.missed s.errs },
      )

  -- missedAlertCleanup.
  unfoldable pub missed_alert_cleanup : Time → AlertsServer L → AlertsServer L
  missed_alert_cleanup now s =
      let m = cleanup_map now s.expected_alerts in
      record s { expected_alerts = m.expected; errs = add_missed_alerts api m.missed s.errs }
