-- ===== src/AlertGenerator/Server/Reports.antt =====
-- What becomes of each received alert: ServeHTTP of alert_generator/server.go.
use compliance.Base.{
  ◌≡◌, refl, ap, String, true, false, List, [], ◌∷◌, none, some, arith, str_eq_refl, inl, inr, ◌⊎◌,
  Dict, length, length-append, All, All-append, All-left, All-right, All-self, In, here, there,
  Option-cases, lt→ltb, ltb→lt,
}
use compliance.AlertGenerator.Api.{Time, AlertApi, Alert}
use compliance.AlertGenerator.ExpectedAlert.{ExpectedAlert, matches}
use compliance.AlertGenerator.Server.State.{
  AlertsServer, AllErrs, MatchingErr, UnexpectedErr, get_err, update_err, errs_of, has_errors,
  add_unexpected, add_matching, lookup-update_err,
}
use compliance.AlertGenerator.Server.Sweep.{sweep_alerts, sweep_map, get_possible_alert}
use compliance.AlertGenerator.Server.Conservation.{all_alerts}
use compliance.AlertGenerator.Server.Handler.{
  Search, found, not_found, Progress, find_match, after_search, serve_candidates, serve_alert,
  serve_alerts, receive, start_progress,
}
use compliance.AlertGenerator.Server.Errors.{
  Extends, serve_alerts-KeepsErrors, add_missed_alerts-KeepsErrors, finish-errs,
}

module _ {L : Type 0} where
  pub has_errors-Extends :
      (e e' : AllErrs L) → Extends e e' → has_errors e ≡ true → has_errors e' ≡ true
  has_errors-Extends e e' x h = lt→ltb 0 _ (
      omega (
        arith,
        ltb→lt 0 _ h,
        ap length x.missed.1,
        ap length x.unexpected.1,
        ap length x.matching.1,
        length-append e.missed_alerts x.missed.0,
        length-append e.unexpected_alerts x.unexpected.0,
        length-append e.matching_errs x.matching.0,
      ))

module _ {L : Type 0} (P : ExpectedAlert L → Type 0) (now : Time) (lbls : String) where
  pub sweep_alerts-All :
      (id : String) (eas : List (ExpectedAlert L))
      → All P eas
      → let s = sweep_alerts now lbls id eas in All P s.alerts × All P s.missed × All P s.kept
  unfolding sweep_alerts
  sweep_alerts-All id [] h = (tt, tt, tt)
  sweep_alerts-All id (ea ∷ eas) h = ground (arith, sweep_alerts-All id eas h.1)

  sweep_map-All :
      (m : Dict (List (ExpectedAlert L)))
      → All P (all_alerts m)
      → let s = sweep_map now lbls m in
        All P s.alerts × All P s.missed × All P (all_alerts s.expected)
  unfolding sweep_map
  sweep_map-All [] h = (tt, tt, tt)
  sweep_map-All ((id, eas) ∷ m) h =
      let here = sweep_alerts-All id eas (All-left P eas (all_alerts m) h) in
      let rest = sweep_map-All m (All-right P eas (all_alerts m) h) in
      (
        All-append P _ _ here.0 rest.0,
        All-append P _ _ here.1 rest.1,
        All-append P _ _ here.2 rest.2,
      )

module _ {L : Type 0} (api : AlertApi L) (now : Time) where
  -- Some alert with the property `P` accepts `al`.
  abbrev Matched : (ExpectedAlert L → Type 0) → Alert L → Type 0
  Matched P al = (ea : ExpectedAlert L) × P ea × (matches api ea now al ≡ none)

  find_match-outcome :
      (P : ExpectedAlert L → Type 0) (al : Alert L) (ex : ExpectedAlert L)
      (exp : List (ExpectedAlert L))
      → All P (ex ∷ exp)
      → Matched P al
        ⊎ ((me : MatchingErr L) × (find_match api now al (ex ∷ exp) ≡ not_found (some me)))
  unfolding find_match
  find_match-outcome P al ex [] h = elim (Option-cases (matches api ex now al)) [
    | inl e ↦ inl (ex, h.0, e)
    | inr (err, e) ↦
        inr (record { t = now; expected_alert = ex; alert = al; err = err }, ground arith)
  ]
  find_match-outcome P al ex (ex' ∷ exp) h = elim (Option-cases (matches api ex now al)) [
    | inl e ↦ inl (ex, h.0, e)
    | inr (err, e) ↦ elim (find_match-outcome P al ex' exp h.1) [
      | inl m ↦ inl m
      | inr (me, r) ↦
          inr (record { t = now; expected_alert = ex; alert = al; err = err }, ground arith)
    ]
  ]

  -- The property of the loop: what is stored has `P`.
  abbrev Holds : (ExpectedAlert L → Type 0) → Progress L → Type 0
  Holds P pr = All P (all_alerts pr.server.expected_alerts)

  -- The received alert has been matched, or its group has an error on record.
  abbrev Noticed : (ExpectedAlert L → Type 0) → Alert L → Dict (AllErrs L) → Type 0
  Noticed P al errs =
      Matched P al ⊎ (has_errors (errs_of (api.get_label al.labels "rulegroup") errs) ≡ true)

  has_errors-update_err :
      (rg : String) (f : AllErrs L → AllErrs L) (errs : Dict (AllErrs L))
      → ((e : AllErrs L) → has_errors (f e) ≡ true)
      → has_errors (errs_of rg (update_err rg f (get_err rg errs))) ≡ true
  has_errors-update_err rg f errs h =
      rw (lookup-update_err rg rg f errs, str_eq_refl rg) (h (errs_of rg errs))

  has_errors-add_unexpected :
      (u : UnexpectedErr L) (e : AllErrs L) → has_errors (add_unexpected u e) ≡ true
  has_errors-add_unexpected u e =
      lt→ltb 0 _ (omega (arith, length-append e.unexpected_alerts (u ∷ [])))

  has_errors-add_matching :
      (me : MatchingErr L) (e : AllErrs L) → has_errors (add_matching me e) ≡ true
  has_errors-add_matching me e = lt→ltb 0 _ (omega (arith, length-append e.matching_errs (me ∷ [])))

  serve_candidates-Noticed :
      (P : ExpectedAlert L → Type 0) (al : Alert L) (exp : List (ExpectedAlert L)) (pr : Progress L)
      → All P exp
      → Noticed P al (serve_candidates api now al exp pr).server.errs
  unfolding serve_candidates after_search
  serve_candidates-Noticed P al [] pr h =
      inr (has_errors-update_err _ (add_unexpected _) pr.server.errs (has_errors-add_unexpected _))
  serve_candidates-Noticed P al (ex ∷ exp) pr h = elim (find_match-outcome P al ex exp h) [
    | inl m ↦ inl m
    | inr (me, e) ↦ inr (
        rw e
          (has_errors-update_err _ (add_matching me) pr.server.errs (has_errors-add_matching me)))
  ]

  after_search-expected :
      (id rg : String) (exp : List (ExpectedAlert L)) (r : Search L) (pr : Progress L)
      → (after_search api id rg exp r pr).server.expected_alerts ≡ pr.server.expected_alerts
  unfolding after_search
  after_search-expected id rg exp (found before ex after) pr = refl
  after_search-expected id rg exp (not_found none) pr = refl
  after_search-expected id rg exp (not_found (some me)) pr = refl

  pub serve_candidates-expected :
      (al : Alert L) (exp : List (ExpectedAlert L)) (pr : Progress L)
      → (serve_candidates api now al exp pr).server.expected_alerts ≡ pr.server.expected_alerts
  unfolding serve_candidates
  serve_candidates-expected al [] pr = refl
  serve_candidates-expected al (ex ∷ exp) pr =
      after_search-expected _ _ (ex ∷ exp) (find_match api now al (ex ∷ exp)) _

  serve_alert-Noticed :
      (P : ExpectedAlert L → Type 0) (al : Alert L) (pr : Progress L)
      → Holds P pr
      → Holds P (serve_alert api now al pr) × Noticed P al (serve_alert api now al pr).server.errs
  unfolding serve_alert get_possible_alert
  serve_alert-Noticed P al pr h =
      let lbls = api.labels_string al.labels in
      let m = sweep_map now lbls pr.server.expected_alerts in
      let swept = sweep_map-All P now lbls pr.server.expected_alerts h in
      (
        rw (serve_candidates-expected al m.alerts) swept.2,
        serve_candidates-Noticed P al m.alerts _ swept.0,
      )

  serve_alerts-Noticed :
      (P : ExpectedAlert L → Type 0) {al : Alert L} (als : List (Alert L)) (pr : Progress L)
      → In al als
      → Holds P pr
      → Noticed P al (serve_alerts api now als pr).server.errs
  unfolding serve_alerts
  serve_alerts-Noticed P [] pr i h = elim i [ ]
  serve_alerts-Noticed P (al ∷ als) pr here h = elim (serve_alert-Noticed P al pr h).1 [
    | inl m ↦ inl m
    | inr e ↦ inr (
        has_errors-Extends _ _ (serve_alerts-KeepsErrors api now als (serve_alert api now al pr) _)
          e)
  ]
  serve_alerts-Noticed P (al ∷ als) pr (there i) h =
      serve_alerts-Noticed P als _ i (serve_alert-Noticed P al pr h).0

  -- Every alert of a request matches an alert that was expected before the request, unless the
  -- group that its `rulegroup` label names has an error on record after the request.
  pub receive-notices :
      {al : Alert L} (als : List (Alert L)) (s s' : AlertsServer L)
      → In al als
      → receive api now als s ≡ some s'
      → has_errors (errs_of (api.get_label al.labels "rulegroup") s'.errs) ≡ false
      → (ea : ExpectedAlert L) × In ea (all_alerts s.expected_alerts)
        × (matches api ea now al ≡ none)
  unfolding receive
  receive-notices {al} als s s' i h clean =
      let known = λ (ea : ExpectedAlert L). In ea (all_alerts s.expected_alerts) in
      let pr = serve_alerts api now als (start_progress api s) in
      let rg = api.get_label al.labels "rulegroup" in
      let kept = add_missed_alerts-KeepsErrors api pr.missed_alerts pr.server.errs rg in
      elim (serve_alerts-Noticed known als (start_progress api s) i (All-self _)) [
        | inl m ↦ m
        | inr e ↦ cc (has_errors-Extends _ _ kept e, rw (finish-errs api now pr s' h) at clean)
      ]
