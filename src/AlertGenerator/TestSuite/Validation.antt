-- ===== src/AlertGenerator/TestSuite/Validation.antt =====
-- What validateOpts of alert_generator/testsuite.go guarantees.
use compliance.Base.{
  ℤ, pos, negsuc, int_lt, ℕ, ◌+◌, ◌≡◌, ◌≢◌, refl, subst, String, Bool, true, false, ◌&&◌, List, [],
  ◌∷◌, ◌++◌, map, arith, str_eq_iff, is_empty, Dict, lookup, insert, contains, Result, ok, err,
  ok_of_chain, ok-injective, All, add_names, AreFresh, AreFresh-append, Distinct, AreFresh-Distinct,
}
use compliance.AlertGenerator.TestSuite.State.{Settings}
use compliance.AlertGenerator.TestSuite.Options.{
  Rule, RuleGroup, CaseInfo, or_empty, rule_error, validate_rules, validate_group, loaded,
  validate_cases, validate_opts,
}

abbrev alert_names : List Rule → List String
alert_names [] = []
alert_names (r ∷ rules) = r.alert ∷ alert_names rules

abbrev pub all_alert_names : List RuleGroup → List String
all_alert_names [] = []
all_alert_names (rg ∷ rgs) = alert_names rg.rules ++ all_alert_names rgs

abbrev pub group_names : List RuleGroup → List String
group_names [] = []
group_names (rg ∷ rgs) = rg.name ∷ group_names rgs

-- A rule of the group `name` that the suite can work with.
pub record IsValidRule {V : Type 0} (validate : Rule → List V) (name : String) (r : Rule)
    : Type 0 where
  pub named : r.alert ≢ ""
  pub labelled : or_empty (lookup "rulegroup" r.labels) ≡ name
  pub accepted : validate r ≡ []

-- The interval is not negative.
abbrev NotNegative : ℤ → Type 0
NotNegative i = (n : ℕ) × (i ≡ pos n)

int_lt-NotNegative : (i : ℤ) → int_lt i (pos 0) ≡ false → NotNegative i
int_lt-NotNegative (pos n) h = (n, refl)
int_lt-NotNegative (negsuc n) h = cc

pub record IsValidGroup {V : Type 0} (validate : Rule → List V) (rg : RuleGroup) : Type 0 where
  pub interval_large_enough : NotNegative rg.interval
  pub has_rules : rg.rules ≢ []
  pub named : rg.name ≢ ""
  pub rules_valid : All (IsValidRule validate rg.name) rg.rules

map_empty : {X Y : Type 0} (f : X → Y) (xs : List X) → is_empty (map f xs) ≡ true → xs ≡ []
map_empty f [] h = refl
map_empty f (x ∷ xs) h = cc

module _ {E V : Type 0} (validate : Rule → List V) where
  -- A rule that passes leaves the loop to the rules after it.
  validate_rules_step :
      (name : String) (i : ℕ) (seen seen' : Dict Bool) (r : Rule) (rules : List Rule)
      → validate_rules {E = E} validate name i [] seen (r ∷ rules) ≡ ok seen'
      → (r.alert ≢ "")
        × (contains r.alert seen ≡ false)
        × (or_empty (lookup "rulegroup" r.labels) ≡ name)
        × (is_empty (map (rule_error name (i + 1) r.alert) (validate r)) ≡ true)
        × (validate_rules {E = E} validate name
              (i + 1)
              (map (rule_error name (i + 1) r.alert) (validate r))
              (insert r.alert true seen)
              rules
            ≡ ok seen')
  unfolding validate_rules
  validate_rules_step name i seen seen' r rules h =
      ground
        (arith, str_eq_iff r.alert "", str_eq_iff (or_empty (lookup "rulegroup" r.labels)) name)

  validate_rules_lem :
      (name : String) (i : ℕ) (seen seen' : Dict Bool) (rules : List Rule)
      → validate_rules {E = E} validate name i [] seen rules ≡ ok seen'
      → All (IsValidRule validate name) rules
        × AreFresh seen (alert_names rules)
        × (seen' ≡ add_names (alert_names rules) seen)
  unfolding validate_rules
  validate_rules_lem name i seen seen' [] h = (tt, tt, ground arith)
  validate_rules_lem name i seen seen' (r ∷ rules) h =
      let (named, fresh, labelled, no_errors, next) =
        validate_rules_step name i seen seen' r rules h in
      let accepted = map_empty (rule_error name (i + 1) r.alert) (validate r) no_errors in
      let (valid, all_fresh, seen_after) =
        validate_rules_lem name (i + 1) (insert r.alert true seen) seen' rules
          (rw accepted at next) in
      (
        (record { named = named; labelled = labelled; accepted = accepted }, valid),
        (fresh, all_fresh),
        seen_after,
      )

  validate_group_lem :
      (rg : RuleGroup) (seen_groups seen_alerts seen' : Dict Bool)
      → validate_group {E = E} validate rg seen_groups seen_alerts ≡ ok seen'
      → (int_lt rg.interval (pos 0) ≡ false)
        × (rg.rules ≢ [])
        × (rg.name ≢ "")
        × (contains rg.name seen_groups ≡ false)
        × (validate_rules {E = E} validate rg.name 0 [] seen_alerts rg.rules ≡ ok seen')
  unfolding validate_group
  validate_group_lem rg seen_groups seen_alerts seen' h = ground (arith, str_eq_iff rg.name "")

  -- The rule groups belong to the cases, in order.
  abbrev pub AreLoaded : List (CaseInfo E) → List RuleGroup → Type 0
  AreLoaded [] [] = Unit {0}
  AreLoaded (c ∷ cases) (rg ∷ rgs) = (c.rule_group ≡ ok rg) × AreLoaded cases rgs
  AreLoaded _ _ = ⊥

  -- What a successful validation gives, from the names already seen.
  pub record AreValid (seen_groups seen_alerts : Dict Bool) (cases : List (CaseInfo E))
      (rgs : List RuleGroup) : Type 0 where
    pub are_loaded : AreLoaded cases rgs
    pub groups_valid : All (IsValidGroup validate) rgs
    pub groups_fresh : AreFresh seen_groups (group_names rgs)
    pub alerts_fresh : AreFresh seen_alerts (all_alert_names rgs)

  cons-AreValid :
      (c : CaseInfo E) (rg : RuleGroup) (cases : List (CaseInfo E)) (rgs : List RuleGroup)
      (seen_groups seen_alerts seen' : Dict Bool)
      → c.rule_group ≡ ok rg
      → validate_group {E = E} validate rg seen_groups seen_alerts ≡ ok seen'
      → AreValid (insert rg.name true seen_groups) seen' cases rgs
      → AreValid seen_groups seen_alerts (c ∷ cases) (rg ∷ rgs)
  cons-AreValid c rg cases rgs seen_groups seen_alerts seen' e h v =
      let (interval, rules, named, fresh, checked) =
        validate_group_lem rg seen_groups seen_alerts seen' h in
      let (valid, alerts, after) =
        validate_rules_lem rg.name 0 seen_alerts seen' rg.rules checked in
      record {
        are_loaded = (e, v.are_loaded);
        groups_valid = (
          record {
            interval_large_enough = int_lt-NotNegative rg.interval interval;
            has_rules = rules;
            named = named;
            rules_valid = valid;
          },
          v.groups_valid,
        );
        groups_fresh = (fresh, v.groups_fresh);
        alerts_fresh =
            AreFresh-append seen_alerts (alert_names rg.rules) (all_alert_names rgs) alerts
              (rw after at v.alerts_fresh);
      }

  loaded-ok : (r : Result E RuleGroup) (rg : RuleGroup) → loaded {V = V} r ≡ ok rg → r ≡ ok rg
  loaded-ok (ok rg') rg h = ground arith
  loaded-ok (err e) rg h = cc

  validate_opts_checks :
      (set : Settings) (has_parser : Bool) (cases : List (CaseInfo E)) (rgs : List RuleGroup)
      → validate_opts validate set has_parser cases ≡ ok rgs
      → (set.disable_alerts_api_check
            && (set.disable_rules_api_check
                && (set.disable_alerts_metrics_check && set.disable_alerts_reception_check))
          ≡ false)
        × (has_parser ≡ true)
        × (validate_cases validate [] [] cases ≡ ok rgs)
  unfolding validate_opts
  validate_opts_checks set has_parser cases rgs h = ground arith

  validate_cases-AreValid :
      (seen_groups seen_alerts : Dict Bool) (cases : List (CaseInfo E)) (rgs : List RuleGroup)
      → validate_cases validate seen_groups seen_alerts cases ≡ ok rgs
      → AreValid seen_groups seen_alerts cases rgs
  unfolding validate_cases
  validate_cases-AreValid seen_groups seen_alerts [] rgs h =
      subst (AreValid seen_groups seen_alerts []) (ok-injective h)
        (record { are_loaded = tt; groups_valid = tt; groups_fresh = tt; alerts_fresh = tt })
  validate_cases-AreValid seen_groups seen_alerts (c ∷ cases) rgs h =
      let (rg, e₁, h₁) = ok_of_chain (loaded {V = V} c.rule_group) h in
      let (seen', e₂, h₂) = ok_of_chain (validate_group validate rg seen_groups seen_alerts) h₁ in
      let (rgs', e₃, h₃) =
        ok_of_chain (validate_cases validate (insert rg.name true seen_groups) seen' cases) h₂ in
      subst (AreValid seen_groups seen_alerts (c ∷ cases)) (ok-injective h₃) (
        cons-AreValid c rg cases rgs' seen_groups seen_alerts seen' (loaded-ok c.rule_group rg e₁)
          e₂ (validate_cases-AreValid (insert rg.name true seen_groups) seen' cases rgs' e₃))

  -- validateOpts returns nil only if some check is enabled, the message parser is set and every case
  -- gives a rule group, with a name, with an interval that is not negative, with a rule at least,
  -- and with rules that have a name and the label `rulegroup` of the group and that are valid for
  -- Prometheus; no group name and, over all groups, no alert name stands twice.
  pub validate_opts-guarantees :
      (set : Settings) (has_parser : Bool) (cases : List (CaseInfo E)) (rgs : List RuleGroup)
      → validate_opts validate set has_parser cases ≡ ok rgs
      → (set.disable_alerts_api_check
            && (set.disable_rules_api_check
                && (set.disable_alerts_metrics_check && set.disable_alerts_reception_check))
          ≡ false)
        × (has_parser ≡ true)
        × AreLoaded cases rgs
        × All (IsValidGroup validate) rgs
        × Distinct (group_names rgs)
        × Distinct (all_alert_names rgs)
  unfolding validate_opts
  validate_opts-guarantees set has_parser cases rgs h =
      let (enabled, parser, rest) = validate_opts_checks set has_parser cases rgs h in
      let v = validate_cases-AreValid [] [] cases rgs rest in
      (
        enabled,
        parser,
        v.are_loaded,
        v.groups_valid,
        AreFresh-Distinct [] (group_names rgs) v.groups_fresh,
        AreFresh-Distinct [] (all_alert_names rgs) v.alerts_fresh,
      )
