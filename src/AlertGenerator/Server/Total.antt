-- ===== src/AlertGenerator/Server/Total.antt =====
-- The time adjustment of ServeHTTP (alert_generator/server.go) and its nil pointers.
use compliance.Base.{
  ℕ, Bool, ◌≡◌, ◌≢◌, refl, String, true, false, List, [], ◌∷◌, Option, none, some, arith, str_eq,
  inl, inr, Dict, lookup, insert, contains, contains-insert, lookup_of_contains, Option-cases, ap,
}
use compliance.AlertGenerator.Api.{Time, AlertApi, Alert}
use compliance.AlertGenerator.ExpectedAlert.{ExpectedAlert}
use compliance.AlertGenerator.Server.State.{
  AlertsServer, file_alerts, sort_seen, add_expected_alerts,
}
use compliance.AlertGenerator.Server.Sweep.{sweep_alerts, sweep_map, get_possible_alert}
use compliance.AlertGenerator.Server.Handler.{
  Search, found, not_found, Progress, Request, options, unreadable, body, find_match, after_search,
  serve_candidates, serve_alert, serve_alerts, adjust_resends, adjust, finish, receive, serve_http,
  serve_parsed, with_status, status_ok, status_bad_request,
}

-- Every key of the first map is one of the second.
abbrev KeysIn {ℓ κ} : {V : Type ℓ} {W : Type κ} → Dict V → Dict W → Type 0
KeysIn [] m = Unit {0}
KeysIn ((k, _) ∷ success) m = (contains k m ≡ true) × KeysIn success m

-- Keys are only added.
abbrev Grows {ℓ} : {V : Type ℓ} → Dict V → Dict V → Type 0
Grows m m' = (j : String) → contains j m ≡ true → contains j m' ≡ true

KeysIn-mono {ℓ κ} :
    {V : Type ℓ} {W : Type κ} (success : Dict V) (m m' : Dict W)
    → Grows m m'
    → KeysIn success m
    → KeysIn success m'
KeysIn-mono [] m m' g h = tt
KeysIn-mono ((k, v) ∷ success) m m' g h = (g k h.0, KeysIn-mono success m m' g h.1)

KeysIn-insert {ℓ κ} :
    {V : Type ℓ} {W : Type κ} (k : String) (v : V) (success : Dict V) (m : Dict W)
    → contains k m ≡ true
    → KeysIn success m
    → KeysIn (insert k v success) m
unfolding insert
KeysIn-insert k v [] m c h = (c, tt)
KeysIn-insert k v ((j, w) ∷ success) m c h = ground (arith, KeysIn-insert k v success m c h.1)

Grows-insert {ℓ} : {V : Type ℓ} (k : String) (v : V) (m : Dict V) → Grows m (insert k v m)
Grows-insert k v m j h = ground (arith, contains-insert k j v m)

module _ {L : Type 0} where
  Grows-sweep_map :
      (now : Time) (lbls : String) (m : Dict (List (ExpectedAlert L)))
      → Grows m (sweep_map now lbls m).expected
  unfolding sweep_map contains
  Grows-sweep_map now lbls [] j h = h
  Grows-sweep_map now lbls ((id, eas) ∷ m) j h = ground (arith, Grows-sweep_map now lbls m j)

  sweep_alerts-other :
      (now : Time) (lbls id : String) (eas : List (ExpectedAlert L))
      → str_eq id lbls ≡ false
      → (sweep_alerts now lbls id eas).alerts ≡ []
  unfolding sweep_alerts
  sweep_alerts-other now lbls id [] h = refl
  sweep_alerts-other now lbls id (ea ∷ eas) h = ground (arith, sweep_alerts-other now lbls id eas)

  sweep_map-other :
      (now : Time) (lbls : String) (m : Dict (List (ExpectedAlert L)))
      → contains lbls m ≡ false
      → (sweep_map now lbls m).alerts ≡ []
  unfolding sweep_map contains
  sweep_map-other now lbls [] h = refl
  sweep_map-other now lbls ((id, eas) ∷ m) h =
      ground (arith, sweep_map-other now lbls m, sweep_alerts-other now lbls id eas)

  -- A candidate shows that there is an entry for the labels.
  contains_of_candidates :
      (now : Time) (lbls : String) (m : Dict (List (ExpectedAlert L)))
      → (sweep_map now lbls m).alerts ≢ []
      → contains lbls m ≡ true
  contains_of_candidates now lbls m e = ground (arith, sweep_map-other now lbls m)

  Grows-sort_seen :
      (seen : Dict (Unit {0})) (m : Dict (List (ExpectedAlert L))) → Grows m (sort_seen seen m)
  unfolding sort_seen
  Grows-sort_seen [] m j h = h
  Grows-sort_seen ((id, u) ∷ seen) m j h = Grows-sort_seen seen _ j (Grows-insert id _ m j h)

module _ {L : Type 0} (api : AlertApi L) where
  Grows-file_alerts :
      (eas : List (ExpectedAlert L)) (m : Dict (List (ExpectedAlert L))) (seen : Dict (Unit {0}))
      → Grows m (file_alerts api eas (m, seen)).0
  unfolding file_alerts
  Grows-file_alerts [] m seen j h = h
  Grows-file_alerts (ea ∷ eas) m seen j h =
      Grows-file_alerts eas _ _ j (Grows-insert (api.labels_string ea.alert.labels) _ m j h)

  Grows-add_expected_alerts :
      (eas : List (ExpectedAlert L)) (m : Dict (List (ExpectedAlert L)))
      → Grows m (add_expected_alerts api eas m)
  unfolding add_expected_alerts
  Grows-add_expected_alerts eas m j h =
      Grows-sort_seen (file_alerts api eas (m, [])).1 _ j (Grows-file_alerts eas m [] j h)

  -- The alerts that matched have map entries.
  abbrev IsStored : Progress L → Type 0
  IsStored pr = KeysIn pr.success pr.server.expected_alerts

  after_search-IsStored :
      (id rg : String) (exp : List (ExpectedAlert L)) (r : Search L) (pr : Progress L)
      → contains id pr.server.expected_alerts ≡ true
      → IsStored pr
      → IsStored (after_search api id rg exp r pr)
  unfolding after_search
  after_search-IsStored id rg exp (found before ex after) pr c h =
      KeysIn-insert id ex pr.success pr.server.expected_alerts c h
  after_search-IsStored id rg exp (not_found none) pr c h = h
  after_search-IsStored id rg exp (not_found (some me)) pr c h = h

  serve_candidates-IsStored :
      (now : Time) (al : Alert L) (exp : List (ExpectedAlert L)) (pr : Progress L)
      → (exp ≢ [] → contains (api.labels_string al.labels) pr.server.expected_alerts ≡ true)
      → IsStored pr
      → IsStored (serve_candidates api now al exp pr)
  unfolding serve_candidates
  serve_candidates-IsStored now al [] pr c h = h
  serve_candidates-IsStored now al (ex ∷ exp) pr c h =
      after_search-IsStored _ _ (ex ∷ exp) (find_match api now al (ex ∷ exp)) _ (c (λ e. cc)) h

  serve_alert-IsStored :
      (now : Time) (al : Alert L) (pr : Progress L)
      → IsStored pr
      → IsStored (serve_alert api now al pr)
  unfolding serve_alert get_possible_alert
  serve_alert-IsStored now al pr h =
      let lbls = api.labels_string al.labels in
      let m = pr.server.expected_alerts in
      serve_candidates-IsStored now al (sweep_map now lbls m).alerts _
        (λ e. Grows-sweep_map now lbls m lbls (contains_of_candidates now lbls m e))
        (KeysIn-mono pr.success m _ (Grows-sweep_map now lbls m) h)

  serve_alerts-IsStored :
      (now : Time) (als : List (Alert L)) (pr : Progress L)
      → IsStored pr
      → IsStored (serve_alerts api now als pr)
  unfolding serve_alerts
  serve_alerts-IsStored now [] pr h = h
  serve_alerts-IsStored now (al ∷ als) pr h =
      serve_alerts-IsStored now als _ (serve_alert-IsStored now al pr h)

  adjust-ne-none :
      (now : Time) (success : Dict (ExpectedAlert L)) (m : Dict (List (ExpectedAlert L)))
      → KeysIn success m
      → adjust api now success m ≢ none
  unfolding adjust
  adjust-ne-none now [] m h = λ e. cc
  adjust-ne-none now ((id, sa) ∷ success) m h = elim (Option-cases (lookup id m)) [
    | inl e ↦ absurd (lookup_of_contains id m h.0 e)
    | inr (eas, e) ↦
        let m' = insert id (adjust_resends api now sa.alert.labels eas) m in
        let rest =
          adjust-ne-none now success m' (KeysIn-mono success m m' (Grows-insert id _ m) h.1) in
        ground (arith, rest)
  ]

  finish-ne-none : (now : Time) (pr : Progress L) → IsStored pr → finish api now pr ≢ none
  unfolding finish
  finish-ne-none now pr h =
      let m = add_expected_alerts api pr.add_back pr.server.expected_alerts in
      let kept = KeysIn-mono pr.success _ m (Grows-add_expected_alerts pr.add_back _) h in
      ground (arith, adjust-ne-none now pr.success m kept)

  receive-ne-none :
      (now : Time) (als : List (Alert L)) (s : AlertsServer L) → receive api now als s ≢ none
  unfolding receive
  receive-ne-none now als s = finish-ne-none now _ (serve_alerts-IsStored now als _ tt)

  -- The outcome of a request, from its form alone.
  abbrev status_of_parsed : Option (List (Alert L)) → ℕ
  status_of_parsed none = status_bad_request
  status_of_parsed (some _) = status_ok

  abbrev pub request_status : {B : Type 0} → (B → Option (List (Alert L))) → Request B → ℕ
  request_status parse options = status_ok
  request_status parse unreadable = status_bad_request
  request_status parse (body b) = status_of_parsed (parse b)

  abbrev is_parsed : Option (List (Alert L)) → Bool
  is_parsed none = false
  is_parsed (some _) = true

  abbrev pub carries_alerts : {B : Type 0} → (B → Option (List (Alert L))) → Request B → Bool
  carries_alerts parse options = false
  carries_alerts parse unreadable = false
  carries_alerts parse (body b) = is_parsed (parse b)

  serve_parsed_total :
      (now : Time) (parsed : Option (List (Alert L))) (s : AlertsServer L)
      → (s' : AlertsServer L) × (serve_parsed api now parsed s ≡ some (status_of_parsed parsed, s'))
        × (is_parsed parsed ≡ false → s' ≡ s)
  serve_parsed_total now none s = (s, refl, λ _. refl)
  serve_parsed_total now (some als) s = elim (Option-cases (receive api now als s)) [
    | inl e ↦ absurd (receive-ne-none now als s e)
    | inr (s', e) ↦ (s', ap (with_status api status_ok) e, λ f. cc)
  ]

  -- ServeHTTP does not panic, whatever the server holds and whatever is sent; it answers with
  -- status 200 or 400, and with 400 exactly when the body cannot be read or parsed. On a preflight
  -- request and with status 400 the server is unchanged.
  pub serve_http_total :
      {B : Type 0} (parse : B → Option (List (Alert L))) (now : Time) (rq : Request B)
      (s : AlertsServer L)
      → (s' : AlertsServer L) × (serve_http api parse now rq s ≡ some (request_status parse rq, s'))
        × (carries_alerts parse rq ≡ false → s' ≡ s)
  unfolding serve_http
  serve_http_total parse now options s = (s, refl, λ _. refl)
  serve_http_total parse now unreadable s = (s, refl, λ _. refl)
  serve_http_total parse now (body b) s = serve_parsed_total now (parse b) s
