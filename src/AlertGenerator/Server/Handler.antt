-- ===== src/AlertGenerator/Server/Handler.antt =====
-- alert_generator/server.go: ServeHTTP. A panic of the Go code (a nil pointer) is `none`.
use compliance.Base.{
  ℕ, ◌+◌, ◌-◌, String, Bool, true, false, not, ◌&&◌, List, [], ◌∷◌, ◌++◌, Option, none, some,
  if◌then◌else◌, Dict, lookup, insert,
}
use compliance.AlertGenerator.Api.{Time, AlertApi, is_eq, Alert}
use compliance.AlertGenerator.ExpectedAlert.{
  ExpectedAlert, resend_delay, max_rtt, matches, can_be_ignored,
}
use compliance.AlertGenerator.Server.State.{
  AlertsServer, MatchingErr, get_err, update_err, add_unexpected, add_matching, add_missed_alerts,
  add_expected_alerts,
}
use compliance.AlertGenerator.Server.Sweep.{get_possible_alert}

-- What the loop over the candidates finds: the first that matches, with the ones before and after
-- it, or the error of the first candidate.
pub data Search (L : Type 0) : Type 0 where
  found : List (ExpectedAlert L) → ExpectedAlert L → List (ExpectedAlert L) → Search L
  not_found : Option (MatchingErr L) → Search L

-- The variables of the loop over the received alerts.
pub record Progress (L : Type 0) : Type 0 where
  pub server : AlertsServer L
  pub add_back : List (ExpectedAlert L)
  pub missed_alerts : List (ExpectedAlert L)
  pub success : Dict (ExpectedAlert L)

-- An HTTP request: a preflight, a body that cannot be read, or a body.
pub data Request (B : Type 0) : Type 0 where
  options unreadable : Request B
  body : B → Request B

abbrev pub status_ok : ℕ
status_ok = 200

abbrev pub status_bad_request : ℕ
status_bad_request = 400

module _ {L : Type 0} where
  -- A candidate that does not match goes before the match, or its error is the first one.
  abbrev step_over : MatchingErr L → Search L → Search L
  step_over me (found before ex after) = found (me.expected_alert ∷ before) ex after
  step_over me (not_found _) = not_found (some me)

  -- The loop over the alerts before the match, with the flag lastResendWasIgnored.
  unfoldable pub missed_before : Bool → List (ExpectedAlert L) → List (ExpectedAlert L)
  missed_before last [] = []
  missed_before last (ma ∷ rest) = elim (can_be_ignored ma) [
    | true ↦ missed_before ma.resend rest
    | false ↦ elim (last && ma.resend) [
      | true ↦ missed_before last rest
      | false ↦ ma ∷ missed_before false rest
    ]
  ]

module _ {L : Type 0} (api : AlertApi L) where
  -- The loop that looks for the expected alert which the received one matches.
  unfoldable pub find_match : Time → Alert L → List (ExpectedAlert L) → Search L
  find_match now al [] = not_found none
  find_match now al (ex ∷ exp) =
      let rest = find_match now al exp in
      elim (matches api ex now al) [
        | none ↦ found [] ex exp
        | some e ↦ step_over (record { t = now; expected_alert = ex; alert = al; err = e }) rest
      ]

  -- What the handler does with the outcome of the search through the candidates `exp`. Without a
  -- match they are put back. (There is always a first error then, since `exp` is not empty.)
  unfoldable pub after_search :
      String → String → List (ExpectedAlert L) → Search L → Progress L → Progress L
  after_search id rg exp (found before ex after) pr = record pr {
    add_back = pr.add_back ++ after;
    missed_alerts = pr.missed_alerts ++ missed_before false before;
    success = insert id ex pr.success;
  }
  after_search id rg exp (not_found none) pr = record pr { add_back = pr.add_back ++ exp }
  after_search id rg exp (not_found (some me)) pr = record pr {
    server = record (pr.server) { errs = update_err rg (add_matching me) pr.server.errs };
    add_back = pr.add_back ++ exp;
  }

  -- The loop body after getPossibleAlert: no candidate means an unexpected alert.
  unfoldable pub serve_candidates :
      Time → Alert L → List (ExpectedAlert L) → Progress L → Progress L
  serve_candidates now al [] pr =
      let rg = api.get_label al.labels "rulegroup" in
      record pr {
        server = record (pr.server) {
          errs =
              update_err rg (add_unexpected (record { t = now; alert = al }))
                (get_err rg pr.server.errs);
        };
      }
  serve_candidates now al (ex ∷ exp) pr =
      let rg = api.get_label al.labels "rulegroup" in
      after_search (api.labels_string al.labels) rg (ex ∷ exp) (find_match now al (ex ∷ exp))
        (record pr { server = record (pr.server) { errs = get_err rg pr.server.errs } })

  -- One received alert.
  unfoldable pub serve_alert : Time → Alert L → Progress L → Progress L
  serve_alert now al pr =
      let (exp, server) = get_possible_alert api now (api.labels_string al.labels) pr.server in
      serve_candidates now al exp (record pr { server = server })

  unfoldable pub serve_alerts : Time → List (Alert L) → Progress L → Progress L
  serve_alerts now [] pr = pr
  serve_alerts now (al ∷ als) pr = serve_alerts now als (serve_alert now al pr)

  -- The inner loop of the time adjustment: it stops at the first alert that is no resend.
  unfoldable pub adjust_resends : Time → L → List (ExpectedAlert L) → List (ExpectedAlert L)
  adjust_resends now labels [] = []
  adjust_resends now labels (ea ∷ eas) =
      let rest = adjust_resends now labels eas in
      if not (is_eq (api.compare_labels ea.alert.labels labels))
      then ea ∷ rest
      else if not ea.resend
      then ea ∷ eas
      else record ea { ts = now + (resend_delay - max_rtt) } ∷ rest

  abbrev adjust_entry :
      Time
      → String
      → ExpectedAlert L
      → Dict (List (ExpectedAlert L))
      → Option (List (ExpectedAlert L))
      → Option (Dict (List (ExpectedAlert L)))
  adjust_entry now id sa m none = none
  adjust_entry now id sa m (some eas) = some (insert id (adjust_resends now sa.alert.labels eas) m)

  -- The loop over the alerts that matched. A missing entry is a nil pointer.
  unfoldable pub adjust :
      Time
      → Dict (ExpectedAlert L)
      → Dict (List (ExpectedAlert L))
      → Option (Dict (List (ExpectedAlert L)))
  adjust now [] m = some m
  adjust now ((id, sa) ∷ success) m = elim (adjust_entry now id sa m (lookup id m)) [
    | none ↦ none
    | some m' ↦ adjust now success m'
  ]

  -- The end of the handler: put alerts back, record the missed ones, adjust the resends.
  unfoldable pub finish : Time → Progress L → Option (AlertsServer L)
  finish now pr =
      let m = add_expected_alerts api pr.add_back pr.server.expected_alerts in
      let errs = add_missed_alerts api pr.missed_alerts pr.server.errs in
      elim (adjust now pr.success m) [
        | none ↦ none
        | some m' ↦ some (record (pr.server) { expected_alerts = m'; errs = errs })
      ]

  abbrev pub start_progress : AlertsServer L → Progress L
  start_progress s = record { server = s; add_back = []; missed_alerts = []; success = [] }

  -- The handler on the alerts of a request.
  unfoldable pub receive : Time → List (Alert L) → AlertsServer L → Option (AlertsServer L)
  unfolding finish
  receive now alerts s = finish now (serve_alerts now alerts (start_progress s))

  abbrev pub with_status : ℕ → Option (AlertsServer L) → Option (ℕ × AlertsServer L)
  with_status status none = none
  with_status status (some s) = some (status, s)

  abbrev pub serve_parsed :
      Time → Option (List (Alert L)) → AlertsServer L → Option (ℕ × AlertsServer L)
  serve_parsed now none s = some (status_bad_request, s)
  serve_parsed now (some alerts) s = with_status status_ok (receive now alerts s)

  -- ServeHTTP, with the message parser of the configuration.
  unfoldable pub serve_http :
      {B : Type 0}
      → (B → Option (List (Alert L)))
      → Time
      → Request B
      → AlertsServer L
      → Option (ℕ × AlertsServer L)
  serve_http parse now options s = some (status_ok, s)
  serve_http parse now unreadable s = some (status_bad_request, s)
  serve_http parse now (body b) s = serve_parsed now (parse b) s
