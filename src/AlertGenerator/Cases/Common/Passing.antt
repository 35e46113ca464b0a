-- ===== src/AlertGenerator/Cases/Common/Passing.antt =====
-- When the CheckAlerts of a case of alert_generator/cases/ accepts the answers of an API.
use compliance.Base.{ℕ, ◌+◌, ◌-◌, ◌*◌, ◌≡◌, All, List, none, In, arith, subst, sym}
use compliance.AlertGenerator.Api.{second}
use compliance.AlertGenerator.Cases.Checks.{ApiAlert, CheckApi, check_expected_alerts}
use compliance.AlertGenerator.Cases.Checks.Agreement.{AlertsAgree}
use compliance.AlertGenerator.Cases.Checks.Accepting.{IsDated, check_expected_alerts_accepts}
use compliance.AlertGenerator.Cases.Common.{group_interval}
use compliance.AlertGenerator.Cases.Common.Timeline.{Throughout, Throughout-map}

-- A case expects the lists `exps`, by the time after its start, and `reported` is what an API
-- reports then in a state.
module _ {L X : Type 0} (api : CheckApi L ℕ) (zero_time : ℕ) (exps : ℕ → List (List (ApiAlert L)))
    (reported : ℕ → X → List (ApiAlert L)) where
  abbrev Accepts : ℕ → X → Type 0
  Accepts ts s =
      (act : List (ApiAlert L))
      → AlertsAgree api (group_interval * second) act (reported ts s)
      → check_expected_alerts api (exps (zero_time + ts - zero_time)) act (group_interval * second)
        ≡ none

  expected-Accepts :
      ((ts : ℕ) → All (All IsDated) (exps ts))
      → (ts : ℕ) (s : X) → In (reported ts s) (exps ts)
      → Accepts ts s
  expected-Accepts dated ts s i act agree =
      let since : zero_time + ts - zero_time ≡ ts = omega arith in
      check_expected_alerts_accepts api (exps (zero_time + ts - zero_time)) act
        (group_interval * second) (reported ts s) (dated (zero_time + ts - zero_time))
        (subst (λ t. In (reported ts s) (exps t)) (sym since) i) agree

  pub expected-Throughout :
      ((ts : ℕ) → All (All IsDated) (exps ts))
      → (states : List X) → Throughout (λ ts s. In (reported ts s) (exps ts)) 0 states
      → Throughout Accepts 0 states
  expected-Throughout dated states h =
      Throughout-map (λ ts s. In (reported ts s) (exps ts)) Accepts (expected-Accepts dated) 0
        states h
