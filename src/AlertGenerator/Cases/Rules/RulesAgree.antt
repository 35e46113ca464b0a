-- ===== src/AlertGenerator/Cases/Rules/RulesAgree.antt =====
-- When checkExpectedRuleGroup accepts the rule group of an API.
use compliance.Base.{
  ◌+◌, ◌≤◌, ◌≡◌, refl, String, true, List, [], ◌∷◌, Option, none, some, str_eq_iff, length,
  sort_slice, In, here, there, arith, Option-cases,
}
use compliance.AlertGenerator.Api.{Time, Duration}
use compliance.AlertGenerator.ExpectedAlert.{max_rtt}
use compliance.AlertGenerator.Cases.Checks.{ApiAlert, CheckApi, first_error, check_expected_alerts}
use compliance.AlertGenerator.Cases.Checks.Loops.{Along, check_any-Some, first_error-Along}
use compliance.AlertGenerator.Cases.Checks.Agreement.{
  AlertsAgree, check_expected_alerts-AlertsAgree,
}
use compliance.AlertGenerator.Cases.Rules.{
  AlertingRule, RuleGroup, RulesError, rules_panic, no_actual_rule, alerts_error_of,
  groups_error_of, alerting_rules, rule_alerts, rule_before, same_rule, rule_error_of, rule_error,
  alerting_rules_error, are_rules_equal, group_error_of, check_groups, check_expected_rule_group,
}

module _ {L F : Type 0} (api : CheckApi L F) where
  -- The actual rule has the expected fields and the same query, up to its layout, and was
  -- evaluated in the last interval and request time.
  pub record RuleAgrees (now : Time) (itvl : Duration) (e a : AlertingRule L F) : Type 0 where
    pub fields_agree : same_rule api e a ≡ true
    pub queries_agree :
        (q : String) × (api.parse_expr e.query ≡ some q) × (api.parse_expr a.query ≡ some q)
    pub recent : now ≤ a.last_evaluation + (max_rtt + itvl)

  rule_error_of-none :
      (now : Time) (itvl : Duration) (e a : AlertingRule L F) (eq aq : Option String)
      → rule_error_of api now itvl e a eq aq ≡ none
      → (same_rule api e a ≡ true)
        × ((q : String) × (eq ≡ some q) × (aq ≡ some q))
        × (now ≤ a.last_evaluation + (max_rtt + itvl))
  rule_error_of-none now itvl e a none aq h = cc
  rule_error_of-none now itvl e a (some eq) none h = cc
  rule_error_of-none now itvl e a (some eq) (some aq) h =
      (ground arith, (eq, refl, ground (arith, str_eq_iff eq aq)), ground arith)

  rule_error-RuleAgrees :
      (now : Time) (itvl : Duration) (e a : AlertingRule L F)
      → rule_error api now itvl e a ≡ none
      → RuleAgrees now itvl e a
  unfolding rule_error
  rule_error-RuleAgrees now itvl e a h =
      let (f, q, r) =
        rule_error_of-none now itvl e a (api.parse_expr e.query) (api.parse_expr a.query) h in
      record { fields_agree = f; queries_agree = q; recent = r }

  -- The actual group has the name and the interval of the expected one, was evaluated recently,
  -- and its rules, all alerting, agree with the expected ones, sorted by name and labels, as do
  -- the alerts of its rules.
  pub record GroupAgrees (now : Time) (act : RuleGroup L F) (exp : RuleGroup L F) : Type 0 where
    pub same_name : exp.name ≡ act.name
    pub same_interval : api.float_eq exp.interval act.interval ≡ true
    pub recent_group : now ≤ act.last_evaluation + (max_rtt + api.in_seconds exp.interval)
    pub as_many : length exp.rules ≡ length act.rules
    pub rules_agree :
        (ers : List (AlertingRule L F)) × (ars : List (AlertingRule L F)) × (alerting_rules
            exp.rules
          ≡ some ers)
        × (alerting_rules act.rules ≡ some ars)
        × Along
            (RuleAgrees now (api.in_seconds exp.interval))
            (sort_slice (rule_before api) ers)
            (sort_slice (rule_before api) ars)
        × AlertsAgree api (api.in_seconds exp.interval) (rule_alerts ars) (rule_alerts ers)

  alerts_error_of-none :
      (itvl : Duration) (exp act : List (ApiAlert L))
      → alerts_error_of (check_expected_alerts api (exp ∷ []) act itvl) ≡ none
      → AlertsAgree api itvl act exp
  alerts_error_of-none itvl exp act h = only (
      check_expected_alerts-AlertsAgree api (exp ∷ []) act itvl
        (ground (arith, Option-cases (check_expected_alerts api (exp ∷ []) act itvl))))
    where
      only :
          ((e : List (ApiAlert L)) × In e (exp ∷ []) × AlertsAgree api itvl act e)
          → AlertsAgree api itvl act exp
      only (e, here, a) = a
      only (e, there i, a) = elim i [ ]

  Along-map :
      {X Y : Type 0} (P Q : X → Y → Type 0)
      → ((x : X) (y : Y) → P x y → Q x y)
      → (xs : List X) (ys : List Y) → Along P xs ys
      → Along Q xs ys
  Along-map P Q f [] ys h = tt
  Along-map P Q f (x ∷ xs) [] h = h
  Along-map P Q f (x ∷ xs) (y ∷ ys) h = (f x y h.0, Along-map P Q f xs ys h.1)

  alerting_rules_error-none :
      (now : Time) (itvl : Duration) (act_rules : List (AlertingRule L F))
      (act_alerts : List (ApiAlert L)) (exp : Option (List (AlertingRule L F)))
      → alerting_rules_error api now itvl act_rules act_alerts exp ≡ none
      → (ers : List (AlertingRule L F)) × (exp ≡ some ers)
        × Along (RuleAgrees now itvl) (sort_slice (rule_before api) ers) act_rules
        × AlertsAgree api itvl act_alerts (rule_alerts ers)
  alerting_rules_error-none now itvl act_rules act_alerts none h = cc
  alerting_rules_error-none now itvl act_rules act_alerts (some ers) h =
      let sorted = sort_slice (rule_before api) ers in
      let outcome = first_error no_actual_rule (rule_error api now itvl) sorted act_rules in
      let split : (outcome ≡ none)
          × (alerts_error_of (check_expected_alerts api (rule_alerts ers ∷ []) act_alerts itvl)
              ≡ none) =
        ground (arith, h, Option-cases outcome) in
      (
        ers,
        refl,
        Along-map (λ e a. rule_error api now itvl e a ≡ none) (RuleAgrees now itvl)
            (rule_error-RuleAgrees now itvl) sorted act_rules
            ((first_error-Along no_actual_rule (rule_error api now itvl) sorted act_rules).0
              split.0),
        alerts_error_of-none itvl (rule_alerts ers) act_alerts split.1,
      )

  group_error_of-GroupAgrees :
      (now : Time) (act exp : RuleGroup L F) (ars : List (AlertingRule L F))
      → alerting_rules act.rules ≡ some ars
      → group_error_of api now act (sort_slice (rule_before api) ars) (rule_alerts ars) exp ≡ none
      → GroupAgrees now act exp
  unfolding group_error_of are_rules_equal
  group_error_of-GroupAgrees now act exp ars e h =
      let itvl = api.in_seconds exp.interval in
      let (ers, f, r, a) =
        alerting_rules_error-none now itvl (sort_slice (rule_before api) ars) (rule_alerts ars)
          (alerting_rules exp.rules) (ground (arith, h)) in
      record {
        same_name = ground (arith, h, str_eq_iff exp.name act.name);
        same_interval = ground (arith, h);
        recent_group = ground (arith, h);
        as_many = ground (arith, h);
        rules_agree = (ers, ars, f, e, r, a);
      }

  groups_error_of-none : (o : Option (List RulesError)) → groups_error_of o ≡ none → o ≡ none
  groups_error_of-none none h = refl
  groups_error_of-none (some errs) h = cc

  check_groups-agree :
      (now : Time) (exps : List (RuleGroup L F)) (act : RuleGroup L F)
      (o : Option (List (AlertingRule L F)))
      → alerting_rules act.rules ≡ o
      → check_groups api now exps act o ≡ none
      → (exp : RuleGroup L F) × In exp exps × GroupAgrees now act exp
  check_groups-agree now exps act none e h = cc
  check_groups-agree now exps act (some ars) e h =
      let check = group_error_of api now act (sort_slice (rule_before api) ars) (rule_alerts ars) in
      let (exp, i, p) = check_any-Some rules_panic check [] exps (groups_error_of-none _ h) in
      (exp, i, group_error_of-GroupAgrees now act exp ars e p)

  -- The check checkExpectedRuleGroup accepts the group of an API only if all its rules are alerting
  -- and it agrees with one of the expected groups: the same name and interval, an evaluation in the
  -- last interval and request time, as many rules, which agree one by one when both sides are sorted
  -- by name and labels, and the alerts of the rules agree like those of checkExpectedAlerts.
  pub check_expected_rule_group-GroupAgrees :
      (now : Time) (exps : List (RuleGroup L F)) (act : RuleGroup L F)
      → check_expected_rule_group api now exps act ≡ none
      → (exp : RuleGroup L F) × In exp exps × GroupAgrees now act exp
  unfolding check_expected_rule_group
  check_expected_rule_group-GroupAgrees now exps act h =
      check_groups-agree now exps act (alerting_rules act.rules) refl h
