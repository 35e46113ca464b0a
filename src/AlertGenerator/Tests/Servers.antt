-- ===== src/AlertGenerator/Tests/Servers.antt =====
-- Runs of the alert server (alert_generator/server.go).
use compliance.Base.{
  ℕ, ◌+◌, ◌≡◌, refl, true, false, none, some, In, here, [], ◌∷◌, count_if, lookup, insert, contains,
  sort_slice,
}
use compliance.AlertGenerator.ExpectedAlert.{
  ExpectedAlert, matches, should_be_ignored, can_be_ignored,
}
use compliance.AlertGenerator.Server.State.{
  AlertsServer, get_err, update_err, add_missed_alerts, add_expected_alerts,
}
use compliance.AlertGenerator.Server.Sweep.{
  get_possible_alert, sweep_map, sweep_alerts, missed_alert_cleanup,
}
use compliance.AlertGenerator.Server.Handler.{
  find_match, after_search, missed_before, serve_candidates, serve_alert, serve_alerts,
  adjust_resends, adjust, finish, receive, body, serve_http,
}
use compliance.AlertGenerator.Server.Conservation.{
  all_alerts, all_missed, due, get_possible_alert_conserves, missed_alert_cleanup_conserves,
}
use compliance.AlertGenerator.Server.Errors.{KeepsErrors, receive-KeepsErrors}
use compliance.AlertGenerator.Server.Total.{serve_http_total, request_status, carries_alerts}
use compliance.AlertGenerator.Server.Filing.{IsWellStored, add_expected_alerts-IsWellStored}
use compliance.AlertGenerator.Server.WellStored.{
  receive-IsWellStored, missed_alert_cleanup-IsWellStored,
}
use compliance.AlertGenerator.Server.Reports.{receive-notices}
use compliance.AlertGenerator.Tests.{api, firing, sent, now, too_late, server, satisfied}

pub receive_run : receive api now (sent 0 ∷ []) server ≡ some satisfied
unfolding receive finish adjust adjust_resends serve_alerts serve_alert serve_candidates find_match
    after_search missed_before get_possible_alert sweep_map sweep_alerts should_be_ignored
    can_be_ignored matches get_err update_err add_missed_alerts add_expected_alerts lookup insert
    contains
receive_run = refl

receive-notices_example :
    (ea : ExpectedAlert ℕ) × In ea (all_alerts server.expected_alerts)
    × (matches api ea now (sent 0) ≡ none)
unfolding lookup
receive-notices_example =
    receive-notices api now (sent 0 ∷ []) server satisfied here receive_run refl

receive-KeepsErrors_example : KeepsErrors server.errs satisfied.errs
receive-KeepsErrors_example = receive-KeepsErrors api now (sent 0 ∷ []) server satisfied receive_run

serve_http_total_example :
    (s' : AlertsServer ℕ) × (serve_http api some now (body (sent 0 ∷ [])) server
      ≡ some (request_status api some (body (sent 0 ∷ [])), s'))
    × (carries_alerts api some (body (sent 0 ∷ [])) ≡ false → s' ≡ server)
serve_http_total_example = serve_http_total api some now (body (sent 0 ∷ [])) server

get_possible_alert_conserves_example :
    let (exp, s') = get_possible_alert api now "a" server in
    count_if (due (λ ea. true) now) (all_alerts server.expected_alerts)
      + count_if (λ ea. true) (all_missed server.errs)
    ≡ count_if (λ ea. true) exp
      + count_if (λ ea. true) (all_alerts s'.expected_alerts)
      + count_if (λ ea. true) (all_missed s'.errs)
get_possible_alert_conserves_example = get_possible_alert_conserves api (λ ea. true) now "a" server

missed_alert_cleanup_conserves_example :
    let s' = missed_alert_cleanup api too_late server in
    count_if (due (λ ea. true) too_late) (all_alerts server.expected_alerts)
      + count_if (λ ea. true) (all_missed server.errs)
    ≡ count_if (λ ea. true) (all_alerts s'.expected_alerts)
      + count_if (λ ea. true) (all_missed s'.errs)
missed_alert_cleanup_conserves_example =
    missed_alert_cleanup_conserves api (λ ea. true) too_late server

nothing-IsWellStored : IsWellStored api []
unfolding lookup
nothing-IsWellStored = record { filed = λ id. tt; ordered = λ id. tt }

server-IsWellStored : IsWellStored api server.expected_alerts
unfolding add_expected_alerts insert lookup sort_slice
server-IsWellStored = add_expected_alerts-IsWellStored api (firing ∷ []) [] nothing-IsWellStored

receive-IsWellStored_example : IsWellStored api satisfied.expected_alerts
receive-IsWellStored_example =
    receive-IsWellStored api now (sent 0 ∷ []) server satisfied receive_run server-IsWellStored

missed_alert_cleanup-IsWellStored_example :
    IsWellStored api (missed_alert_cleanup api too_late server).expected_alerts
missed_alert_cleanup-IsWellStored_example =
    missed_alert_cleanup-IsWellStored api too_late server server-IsWellStored

-- An alert that comes too late for its only expectation is recorded as unexpected, and the
-- expectation as missed.
late_alert :
    receive api too_late (sent 0 ∷ []) server
    ≡ some (record {
      expected_alerts = ("a", []) ∷ [];
      errs =
          (
            "group",
            record {
              missed_alerts = firing ∷ [];
              unexpected_alerts = record { t = too_late; alert = sent 0 } ∷ [];
              matching_errs = [];
            },
          )
          ∷ [];
      disabled = false;
    })
unfolding receive finish adjust adjust_resends serve_alerts serve_alert serve_candidates find_match
    after_search missed_before get_possible_alert sweep_map sweep_alerts should_be_ignored
    can_be_ignored matches get_err update_err add_missed_alerts add_expected_alerts lookup insert
    contains
late_alert = refl
