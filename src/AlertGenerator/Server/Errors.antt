-- ===== src/AlertGenerator/Server/Errors.antt =====
-- The error records of alert_generator/server.go, before and after an operation.
use compliance.Base.{
  ◌≡◌, refl, String, Bool, true, false, List, [], ◌∷◌, none, some, arith, str_eq, Dict, Prefix,
  Prefix-refl, Prefix-trans, Prefix-snoc, if◌then◌else◌,
}
use compliance.AlertGenerator.Api.{Time, AlertApi, Alert}
use compliance.AlertGenerator.ExpectedAlert.{ExpectedAlert}
use compliance.AlertGenerator.Server.State.{
  AlertsServer, AllErrs, MatchingErr, UnexpectedErr, get_err, update_err, errs_of, add_missed,
  add_unexpected, add_matching, lookup-get_err, lookup-update_err, add_missed_alerts,
}
use compliance.AlertGenerator.Server.Sweep.{
  sweep_map, get_possible_alert, missed_alert_cleanup, cleanup_map,
}
use compliance.AlertGenerator.Server.Handler.{
  Search, found, not_found, Progress, find_match, after_search, serve_candidates, serve_alert,
  serve_alerts, finish, receive, start_progress,
}

-- Each list of the first record is the beginning of the list of the second.
pub record Extends {L : Type 0} (e e' : AllErrs L) : Type 0 where
  pub missed : Prefix e.missed_alerts e'.missed_alerts
  pub unexpected : Prefix e.unexpected_alerts e'.unexpected_alerts
  pub matching : Prefix e.matching_errs e'.matching_errs

module _ {L : Type 0} where
  Extends-refl : (e : AllErrs L) → Extends e e
  Extends-refl e = record {
    missed = Prefix-refl _;
    unexpected = Prefix-refl _;
    matching = Prefix-refl _;
  }

  Extends-trans : {a b c : AllErrs L} → Extends a b → Extends b c → Extends a c
  Extends-trans p q = record {
    missed = Prefix-trans _ _ _ p.missed q.missed;
    unexpected = Prefix-trans _ _ _ p.unexpected q.unexpected;
    matching = Prefix-trans _ _ _ p.matching q.matching;
  }

  -- In no group does an error get lost.
  abbrev pub KeepsErrors : Dict (AllErrs L) → Dict (AllErrs L) → Type 0
  KeepsErrors errs errs' = (rg : String) → Extends (errs_of rg errs) (errs_of rg errs')

  pub KeepsErrors-refl : (errs : Dict (AllErrs L)) → KeepsErrors errs errs
  KeepsErrors-refl errs rg = Extends-refl _

  KeepsErrors-trans :
      (a b c : Dict (AllErrs L)) → KeepsErrors a b → KeepsErrors b c → KeepsErrors a c
  KeepsErrors-trans a b c p q rg = Extends-trans (p rg) (q rg)

  get_err-KeepsErrors : (rg : String) (errs : Dict (AllErrs L)) → KeepsErrors errs (get_err rg errs)
  get_err-KeepsErrors rg errs j = rw (lookup-get_err rg j errs) (Extends-refl _)

  update_err-KeepsErrors :
      (rg : String) (f : AllErrs L → AllErrs L) (errs : Dict (AllErrs L))
      → ((e : AllErrs L) → Extends e (f e))
      → KeepsErrors errs (update_err rg f (get_err rg errs))
  update_err-KeepsErrors rg f errs g j = rw (lookup-update_err rg j f errs) (chosen (str_eq rg j))
    where
      chosen :
          (b : Bool) → Extends (errs_of j errs) (if b then f (errs_of j errs) else errs_of j errs)
      chosen true = g _
      chosen false = Extends-refl _

  add_missed-Extends : (ea : ExpectedAlert L) (e : AllErrs L) → Extends e (add_missed ea e)
  add_missed-Extends ea e = record {
    missed = Prefix-snoc _ ea;
    unexpected = Prefix-refl _;
    matching = Prefix-refl _;
  }

  add_unexpected-Extends : (u : UnexpectedErr L) (e : AllErrs L) → Extends e (add_unexpected u e)
  add_unexpected-Extends u e = record {
    missed = Prefix-refl _;
    unexpected = Prefix-snoc _ u;
    matching = Prefix-refl _;
  }

  add_matching-Extends : (me : MatchingErr L) (e : AllErrs L) → Extends e (add_matching me e)
  add_matching-Extends me e = record {
    missed = Prefix-refl _;
    unexpected = Prefix-refl _;
    matching = Prefix-snoc _ me;
  }

module _ {L : Type 0} (api : AlertApi L) where
  pub add_missed_alerts-KeepsErrors :
      (eas : List (ExpectedAlert L)) (errs : Dict (AllErrs L))
      → KeepsErrors errs (add_missed_alerts api eas errs)
  unfolding add_missed_alerts
  add_missed_alerts-KeepsErrors [] errs = KeepsErrors-refl errs
  add_missed_alerts-KeepsErrors (ea ∷ eas) errs =
      KeepsErrors-trans _ _ _
        (update_err-KeepsErrors _ (add_missed ea) errs (add_missed-Extends ea))
        (add_missed_alerts-KeepsErrors eas _)

  after_search-KeepsErrors :
      (id rg : String) (exp : List (ExpectedAlert L)) (r : Search L) (pr : Progress L)
      (errs : Dict (AllErrs L))
      → pr.server.errs ≡ get_err rg errs
      → KeepsErrors errs (after_search api id rg exp r pr).server.errs
  unfolding after_search
  after_search-KeepsErrors id rg exp (found before ex after) pr errs h =
      rw h (get_err-KeepsErrors rg errs)
  after_search-KeepsErrors id rg exp (not_found none) pr errs h = rw h (get_err-KeepsErrors rg errs)
  after_search-KeepsErrors id rg exp (not_found (some me)) pr errs h =
      rw h (update_err-KeepsErrors rg (add_matching me) errs (add_matching-Extends me))

  serve_candidates-KeepsErrors :
      (now : Time) (al : Alert L) (exp : List (ExpectedAlert L)) (pr : Progress L)
      → KeepsErrors pr.server.errs (serve_candidates api now al exp pr).server.errs
  unfolding serve_candidates
  serve_candidates-KeepsErrors now al [] pr =
      update_err-KeepsErrors _ (add_unexpected _) pr.server.errs (add_unexpected-Extends _)
  serve_candidates-KeepsErrors now al (ex ∷ exp) pr =
      after_search-KeepsErrors _ _ (ex ∷ exp) (find_match api now al (ex ∷ exp)) _ pr.server.errs
        refl

  serve_alert-KeepsErrors :
      (now : Time) (al : Alert L) (pr : Progress L)
      → KeepsErrors pr.server.errs (serve_alert api now al pr).server.errs
  unfolding serve_alert get_possible_alert
  serve_alert-KeepsErrors now al pr =
      let m = sweep_map now (api.labels_string al.labels) pr.server.expected_alerts in
      KeepsErrors-trans _ _ _ (add_missed_alerts-KeepsErrors m.missed pr.server.errs)
        (serve_candidates-KeepsErrors now al m.alerts _)

  pub serve_alerts-KeepsErrors :
      (now : Time) (als : List (Alert L)) (pr : Progress L)
      → KeepsErrors pr.server.errs (serve_alerts api now als pr).server.errs
  unfolding serve_alerts
  serve_alerts-KeepsErrors now [] pr = KeepsErrors-refl _
  serve_alerts-KeepsErrors now (al ∷ als) pr =
      KeepsErrors-trans _ _ _ (serve_alert-KeepsErrors now al pr)
        (serve_alerts-KeepsErrors now als _)

  -- The error records that the end of the handler leaves.
  pub finish-errs :
      (now : Time) (pr : Progress L) (s' : AlertsServer L)
      → finish api now pr ≡ some s'
      → s'.errs ≡ add_missed_alerts api pr.missed_alerts pr.server.errs
  unfolding finish
  finish-errs now pr s' h = ground arith

  -- A request never takes back or reorders an error: every error list of every group before the
  -- request is the beginning of the list after it.
  pub receive-KeepsErrors :
      (now : Time) (als : List (Alert L)) (s s' : AlertsServer L)
      → receive api now als s ≡ some s'
      → KeepsErrors s.errs s'.errs
  unfolding receive
  receive-KeepsErrors now als s s' h =
      let pr = serve_alerts api now als (start_progress api s) in
      rw (finish-errs now pr s' h) (
        KeepsErrors-trans _ _ _ (serve_alerts-KeepsErrors now als (start_progress api s))
          (add_missed_alerts-KeepsErrors pr.missed_alerts pr.server.errs))

  missed_alert_cleanup-KeepsErrors :
      (now : Time) (s : AlertsServer L) → KeepsErrors s.errs (missed_alert_cleanup api now s).errs
  unfolding missed_alert_cleanup
  missed_alert_cleanup-KeepsErrors now s =
      add_missed_alerts-KeepsErrors (cleanup_map now s.expected_alerts).missed s.errs
