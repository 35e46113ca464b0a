-- ===== src/AlertGenerator/Responses/Parsing.antt =====
-- alert_generator/utils.go: what the parsers return.
use compliance.Base.{
  ℕ, ◌==◌, ◌≡◌, ◌∙◌, ap, sym, refl, arith, Bool, false, not, String, List, [], none, Result, ok,
  err, ok_of_chain, ok-injective, guarded_ok, ◌>>=◌, str_eq, str_eq_iff, Dict, lookup,
}
use compliance.AlertGenerator.Api.{AlertApi}
use compliance.AlertGenerator.Config.{AuthConfig}
use compliance.AlertGenerator.Cases.Checks.{ApiAlert}
use compliance.AlertGenerator.Cases.Rules.{RuleGroup}
use compliance.AlertGenerator.Responses.{
  HttpResponse, HttpApi, ResponseError, non_success, non_200, failed, get_failed, read_failed, wrap,
  do_get_request, authorize, Answer, unmarshalled, group_items, rulegroup, parse_and_group_alerts,
  AnsweredGroup, parse_and_group_rules,
}
use compliance.AlertGenerator.Responses.Grouping.{last_of, group_rules-lookup}

wrap_ok : {D E A : Type 0} (f : D → E) (r : Result D A) {a : A} → wrap f r ≡ ok a → r ≡ ok a
wrap_ok f (ok a) h = ap ok (ok-injective h)
wrap_ok f (err d) h = cc

module _ {B D X : Type 0} (decode : B → Result D (Answer X)) (b : B) where
  -- The body is an answer of success with these items.
  abbrev Succeeds : List X → Type 0
  Succeeds items =
      (res : Answer X) × (decode b ≡ ok res) × (res.status ≡ "success") × (res.items ≡ items)

  unmarshalled-Succeeds : {items : List X} → unmarshalled decode b ≡ ok items → Succeeds items
  unmarshalled-Succeeds {items} h =
      let (res, p, q) = ok_of_chain (wrap ResponseError.unmarshal (decode b)) h in
      let (passes, items_eq) =
        (guarded_ok (not (str_eq res.status "success")) (non_success res.status) (ok res.items)).0
          q in
      (
        res,
        wrap_ok ResponseError.unmarshal (decode b) p,
        (str_eq_iff res.status "success").0 (ground (arith, passes)),
        ok-injective items_eq,
      )

pub parse_and_group_alerts-success :
    {L B D : Type 0} (api : AlertApi L) (decode : B → Result D (Answer (ApiAlert L))) (b : B)
    {res : Answer (ApiAlert L)}
    → decode b ≡ ok res
    → res.status ≡ "success"
    → parse_and_group_alerts api decode b
      ≡ ok (group_items (λ al. rulegroup api al.labels) res.items [])
unfolding parse_and_group_alerts
parse_and_group_alerts-success api decode b {res} decoded success =
    let same = (str_eq_iff res.status "success").1 success in rw (decoded, same) refl

-- ParseAndGroupRules returns a map only for a body that decodes to an answer with the status
-- "success", and then each name is mapped to the last group of the answer that has it, with all its
-- rules as alerting rules in their order; an earlier group of the same name is lost.
parse_and_group_rules-groups :
    {L F B D : Type 0} (decode : B → Result D (Answer (AnsweredGroup L F))) (b : B)
    {m : Dict (RuleGroup L F)}
    → parse_and_group_rules decode b ≡ ok m
    → (groups : List (AnsweredGroup L F)) × Succeeds decode b groups
      × ((g : String) → lookup g m ≡ last_of g groups none)
unfolding parse_and_group_rules lookup
parse_and_group_rules-groups decode b {m} h =
    let (groups, p, q) = ok_of_chain (unmarshalled decode b) h in
    (
      groups,
      unmarshalled-Succeeds decode b p,
      λ g. ap (lookup g) (sym (ok-injective q)) ∙ group_rules-lookup g groups [],
    )

is_200 : (n : ℕ) → not (n == 200) ≡ false → n ≡ 200
is_200 n h = ground arith

-- DoGetRequest returns a body only if the request could be made and its transport authorized, the
-- server answered with the status 200, and this is the body that was read.
do_get_request-body :
    {B D Q T : Type 0} (http : HttpApi B D Q T) (u : String) (sigv4 : Bool) (auth : AuthConfig)
    {b : B}
    → do_get_request http u sigv4 auth ≡ ok b
    → (req : Q) × (t : T) × (q : Q) × (resp : HttpResponse B D) × (http.new_request u ≡ ok req)
      × (authorize http sigv4 auth req ≡ ok (t, q))
      × (http.do_request t q ≡ ok resp)
      × (resp.status_code ≡ 200)
      × (resp.body ≡ ok b)
unfolding do_get_request
do_get_request-body http u sigv4 auth h =
    let (resp, sent, read) =
      ok_of_chain
        (wrap failed (http.new_request u)
          >>= (λ req. authorize http sigv4 auth req)
          >>= (λ client. wrap get_failed (http.do_request client.0 client.1)))
        h in
    let ((t, q), authorized, answered) =
      ok_of_chain (wrap failed (http.new_request u) >>= (λ req. authorize http sigv4 auth req))
        sent in
    let (req, made, signed) = ok_of_chain (wrap failed (http.new_request u)) authorized in
    let (fine, body) =
      (guarded_ok (not (resp.status_code == 200)) (non_200 resp.status_code)
          (wrap read_failed resp.body)).0
        read in
    (
      req,
      t,
      q,
      resp,
      wrap_ok failed (http.new_request u) made,
      signed,
      wrap_ok get_failed (http.do_request t q) answered,
      is_200 resp.status_code fine,
      wrap_ok read_failed resp.body body,
    )
