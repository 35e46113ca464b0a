-- ===== src/AlertGenerator/Responses.antt =====
-- alert_generator/utils.go and alert_message_parsers.go: fetching an answer, and parsing it into
-- groups by the label "rulegroup". The HTTP client, its requests and JSON decoding are operations
-- of an interface. A number of a JSON sample is converted by `to_int64`; times stay the same under
-- UTC.
pub mod Grouping
pub mod Parsing
use compliance.Base.{
  ℤ, ℕ, ◌==◌, String, Bool, not, List, [], ◌∷◌, ◌++◌, Option, none, some, str_eq, if◌then◌else◌,
  Result, ok, err, ◌>>=◌, or_nil, Dict, lookup, insert,
}
use compliance.AlertGenerator.Api.{Time, Alert, AlertApi}
use compliance.AlertGenerator.Config.{AuthConfig}
use compliance.AlertGenerator.Cases.Checks.{ApiAlert, Sample}
use compliance.AlertGenerator.Cases.Rules.{AlertingRule, Rule, alerting, RuleGroup}

-- http.Response: its status code and what reading its body gives.
pub record HttpResponse (B D : Type 0) : Type 0 where
  pub status_code : ℕ
  pub body : Result D B

-- The requests `Q` and transports `T` of net/http, and the SigV4 transport.
pub record HttpApi (B D Q T : Type 0) : Type 0 where
  pub new_request : String → Result D Q
  pub set_basic_auth : Q → String → String → Q
  pub default_transport : T
  pub sigv4_round_tripper : T → Result D T
  pub do_request : T → Q → Result D (HttpResponse B D)

-- Why an answer cannot be used. `D` are the errors of other packages; the last one stands for a
-- panic of the suite at a type assertion.
pub data ResponseError (D : Type 0) : Type 0 where
  failed get_failed read_failed unmarshal : D → ResponseError D
  non_200 : ℕ → ResponseError D
  non_success : String → ResponseError D
  bad_assertion : ResponseError D

-- errors.Wrap: the error of a step becomes one of the function.
abbrev wrap : {D E A : Type 0} → (D → E) → Result D A → Result E A
wrap f (ok a) = ok a
wrap f (err d) = err (f d)

module _ {B D Q T : Type 0} (http : HttpApi B D Q T) where
  -- The transport of the client, and the request with its credentials. `sigv4` tells whether
  -- the configuration has one.
  unfoldable authorize : Bool → AuthConfig → Q → Result (ResponseError D) (T × Q)
  authorize sigv4 auth req =
      if sigv4
      then wrap failed (http.sigv4_round_tripper http.default_transport) >>= (λ t. ok (t, req))
      else if not (str_eq auth.basic_auth_user "")
      then ok (
        http.default_transport,
        http.set_basic_auth req auth.basic_auth_user auth.basic_auth_pass,
      )
      else ok (http.default_transport, req)

  -- DoGetRequest.
  unfoldable pub do_get_request : String → Bool → AuthConfig → Result (ResponseError D) B
  unfolding authorize
  do_get_request u sigv4 auth =
      wrap failed (http.new_request u)
      >>= (λ req. authorize sigv4 auth req)
      >>= (λ client. wrap get_failed (http.do_request client.0 client.1))
      >>= (λ resp.
          if not (resp.status_code == 200)
          then err (non_200 resp.status_code)
          else wrap read_failed resp.body)

-- GETAlertsResponse, GETRulesResponse and GETMetricsResponse: the status and the items.
pub record Answer (X : Type 0) : Type 0 where
  pub status : String
  pub items : List X

-- What the three parsers do first.
abbrev pub unmarshalled :
    {B D X : Type 0} → (B → Result D (Answer X)) → B → Result (ResponseError D) (List X)
unmarshalled decode b = wrap unmarshal (decode b) >>= (λ res.
    if not (str_eq res.status "success") then err (non_success res.status) else ok res.items)

-- `m[k] = append(m[k], x)`.
unfoldable append_to : {X : Type 0} → String → X → Dict (List X) → Dict (List X)
append_to k x m = insert k (or_nil (lookup k m) ++ x ∷ []) m

-- The grouping loop of ParseAndGroupAlerts, for any items with a group name.
unfoldable pub group_items : {X : Type 0} → (X → String) → List X → Dict (List X) → Dict (List X)
unfolding append_to
group_items name [] m = m
group_items name (x ∷ xs) m = group_items name xs (append_to (name x) x m)

abbrev pub rulegroup : {L : Type 0} → AlertApi L → L → String
rulegroup api labels = api.get_label labels "rulegroup"

-- ParseAndGroupAlerts.
unfoldable pub parse_and_group_alerts :
    {L B D : Type 0}
    → AlertApi L
    → (B → Result D (Answer (ApiAlert L)))
    → B
    → Result (ResponseError D) (Dict (List (ApiAlert L)))
unfolding group_items
parse_and_group_alerts api decode b =
    unmarshalled decode b >>= (λ alerts. ok (group_items (λ al. rulegroup api al.labels) alerts []))

-- RuleGroup, as an answer has it: all its rules are alerting.
pub record AnsweredGroup (L F : Type 0) : Type 0 where
  pub name : String
  pub file : String
  pub rules : List (AlertingRule L F)
  pub interval : F
  pub evaluation_time : F
  pub last_evaluation : Time

module _ {L F : Type 0} where
  -- The loop over the rules of a group.
  unfoldable append_rules : List (AlertingRule L F) → List (Rule L F) → List (Rule L F)
  append_rules [] rules = rules
  append_rules (r ∷ rest) rules = append_rules rest (rules ++ alerting r ∷ [])

  -- The group that the suite makes of it.
  unfoldable rule_group_of : AnsweredGroup L F → RuleGroup L F
  unfolding append_rules
  rule_group_of g = record {
    name = g.name;
    file = g.file;
    interval = g.interval;
    evaluation_time = g.evaluation_time;
    last_evaluation = g.last_evaluation;
    rules = append_rules g.rules [];
  }

  -- The loop over the groups of ParseAndGroupRules.
  unfoldable group_rules : List (AnsweredGroup L F) → Dict (RuleGroup L F) → Dict (RuleGroup L F)
  unfolding rule_group_of
  group_rules [] m = m
  group_rules (g ∷ groups) m = group_rules groups (insert g.name (rule_group_of g) m)

-- ParseAndGroupRules.
unfoldable pub parse_and_group_rules :
    {L F B D : Type 0}
    → (B → Result D (Answer (AnsweredGroup L F)))
    → B
    → Result (ResponseError D) (Dict (RuleGroup L F))
unfolding group_rules
parse_and_group_rules decode b = unmarshalled decode b >>= (λ groups. ok (group_rules groups []))

-- A value of JSON as Go decodes it into an interface{}: a float64, a string, or of another type.
pub data JsonValue (F : Type 0) : Type 0 where
  number : F → JsonValue F
  text : String → JsonValue F
  other : JsonValue F

-- Vector.
pub record Vector (L F : Type 0) : Type 0 where
  pub metric : L
  pub timestamp : JsonValue F
  pub value : JsonValue F

module _ {L F D : Type 0} (to_int64 : F → ℤ) (parse_float : String → Result D F) where
  -- The sample that a vector becomes.
  unfoldable sample_of : Vector L F → Result (ResponseError D) (Sample L F)
  sample_of s = elim s.timestamp [
    | text _ ↦ err bad_assertion
    | other ↦ err bad_assertion
    | number ts ↦ elim s.value [
      | number _ ↦ err bad_assertion
      | other ↦ err bad_assertion
      | text vs ↦
          wrap failed (parse_float vs)
          >>= (λ val. ok (record { metric = s.metric; t = to_int64 ts; v = val }))
    ]
  ]

  -- The loop of ParseAndGroupMetrics, which the first error ends.
  unfoldable group_metrics :
      AlertApi L
      → List (Vector L F)
      → Dict (List (Sample L F))
      → Result (ResponseError D) (Dict (List (Sample L F)))
  unfolding sample_of append_to
  group_metrics api [] m = ok m
  group_metrics api (s ∷ rest) m =
      sample_of s >>= (λ x. group_metrics api rest (append_to (rulegroup api s.metric) x m))

  -- ParseAndGroupMetrics.
  unfoldable pub parse_and_group_metrics :
      {B : Type 0}
      → AlertApi L
      → (B → Result D (Answer (Vector L F)))
      → B
      → Result (ResponseError D) (Dict (List (Sample L F)))
  unfolding group_metrics
  parse_and_group_metrics api decode b =
      unmarshalled decode b >>= (λ vectors. group_metrics api vectors [])

-- The alerts of a webhook message of Alertmanager; their labels are Go maps.
pub record WebhookAlert : Type 0 where
  pub labels : Dict String
  pub annotations : Dict String
  pub starts_at : Time
  pub ends_at : Time
  pub generator_url : String

-- The loop of the parser "alertmanager".
unfoldable convert_alerts :
    {L : Type 0} → (Dict String → L) → List WebhookAlert → List (Alert L) → List (Alert L)
convert_alerts from_map [] alerts = alerts
convert_alerts from_map (al ∷ rest) alerts = convert_alerts from_map rest (
    alerts
    ++ record {
      labels = from_map al.labels;
      annotations = from_map al.annotations;
      starts_at = al.starts_at;
      ends_at = al.ends_at;
      generator_url = al.generator_url;
    }
      ∷ [])

-- AlertMessageParsers: none for a name that the map does not have.
unfoldable alert_message_parser :
    {L B D : Type 0}
    → (B → Result D (List (Alert L)))
    → (B → Result D (List WebhookAlert))
    → (Dict String → L)
    → String
    → Option (B → Result D (List (Alert L)))
unfolding convert_alerts
alert_message_parser decode decode_message from_map name =
    if str_eq name "default"
    then some decode
    else if str_eq name "alertmanager"
    then some (λ b. decode_message b >>= (λ alerts. ok (convert_alerts from_map alerts [])))
    else none
