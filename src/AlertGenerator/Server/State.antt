-- ===== src/AlertGenerator/Server/State.antt =====
-- alert_generator/server.go: the state of alertsServer, its error records and its queries. The
-- mutexes are left out: each operation here is taken as one critical section, also
-- missedAlertCleanup, which takes no lock. A map entry that is a pointer
-- to a list is the list.
use compliance.Base.{
  ◌+◌, ◌≡◌, refl, String, Bool, true, List, [], ◌∷◌, ◌++◌, Option, none, some, arith, str_eq,
  str_eq_iff, ltb, if◌then◌else◌, length, or_nil, Dict, lookup, insert, contains, sort_slice,
  contains-insert, str_eq_refl, Bool-cases, inl, inr, lookup-insert, lookup_of_not_contains,
}
use compliance.AlertGenerator.Api.{Time, AlertApi, Alert}
use compliance.AlertGenerator.ExpectedAlert.{ExpectedAlert, MatchError}

pub record UnexpectedErr (L : Type 0) : Type 0 where
  pub t : Time
  pub alert : Alert L

pub record MatchingErr (L : Type 0) : Type 0 where
  pub t : Time
  pub expected_alert : ExpectedAlert L
  pub alert : Alert L
  pub err : MatchError

pub record AllErrs (L : Type 0) : Type 0 where
  pub missed_alerts : List (ExpectedAlert L)
  pub unexpected_alerts : List (UnexpectedErr L)
  pub matching_errs : List (MatchingErr L)

pub record AlertsServer (L : Type 0) : Type 0 where
  pub expected_alerts : Dict (List (ExpectedAlert L))
  pub errs : Dict (AllErrs L)
  pub disabled : Bool

module _ {L : Type 0} where
  -- `&allErrs{}`.
  abbrev pub no_errs : AllErrs L
  no_errs = record { missed_alerts = []; unexpected_alerts = []; matching_errs = [] }

  -- getErr: the entry of the group is made if it is not there.
  unfoldable pub get_err : String → Dict (AllErrs L) → Dict (AllErrs L)
  get_err rg errs = if contains rg errs then errs else insert rg no_errs errs

  -- A write through the pointer that getErr returns.
  unfoldable pub update_err : String → (AllErrs L → AllErrs L) → Dict (AllErrs L) → Dict (AllErrs L)
  update_err rg f [] = []
  update_err rg f ((j, e) ∷ m) = if str_eq j rg then (j, f e) ∷ m else (j, e) ∷ update_err rg f m

  abbrev or_no_errs : Option (AllErrs L) → AllErrs L
  or_no_errs none = no_errs
  or_no_errs (some e) = e

  -- The errors on record for a group.
  abbrev pub errs_of : String → Dict (AllErrs L) → AllErrs L
  errs_of rg errs = or_no_errs (lookup rg errs)

  abbrev pub add_missed : ExpectedAlert L → AllErrs L → AllErrs L
  add_missed ea e = record e { missed_alerts = e.missed_alerts ++ ea ∷ [] }

  abbrev pub add_unexpected : UnexpectedErr L → AllErrs L → AllErrs L
  add_unexpected u e = record e { unexpected_alerts = e.unexpected_alerts ++ u ∷ [] }

  abbrev pub add_matching : MatchingErr L → AllErrs L → AllErrs L
  add_matching me e = record e { matching_errs = e.matching_errs ++ me ∷ [] }

  pub lookup-get_err :
      (rg j : String) (errs : Dict (AllErrs L)) → errs_of j (get_err rg errs) ≡ errs_of j errs
  unfolding get_err
  lookup-get_err rg j errs = elim (Bool-cases (contains rg errs)) [
    | inl e ↦ rw e refl
    | inr e ↦
        rw (e, lookup-insert rg j no_errs errs)
          (ground (arith, str_eq_iff rg j, lookup_of_not_contains rg errs))
  ]

  lookup-update_entry :
      (rg j : String) (f : AllErrs L → AllErrs L) (m : Dict (AllErrs L))
      → contains rg m ≡ true
      → errs_of j (update_err rg f m) ≡ (if str_eq rg j then f (errs_of j m) else errs_of j m)
  unfolding update_err lookup contains
  lookup-update_entry rg j f [] h = cc
  lookup-update_entry rg j f ((i, e) ∷ m) h =
      ground (arith, str_eq_iff i rg, str_eq_iff i j, str_eq_iff rg j, lookup-update_entry rg j f m)

  pub contains-get_err :
      (rg : String) (errs : Dict (AllErrs L)) → contains rg (get_err rg errs) ≡ true
  unfolding get_err
  contains-get_err rg errs = ground (arith, contains-insert rg rg no_errs errs, str_eq_refl rg)

  pub lookup-update_err :
      (rg j : String) (f : AllErrs L → AllErrs L) (errs : Dict (AllErrs L))
      → errs_of j (update_err rg f (get_err rg errs))
        ≡ (if str_eq rg j then f (errs_of j errs) else errs_of j errs)
  lookup-update_err rg j f errs = rw (
    lookup-update_entry rg j f (get_err rg errs) (contains-get_err rg errs),
    lookup-get_err rg j errs,
  )

  -- The test of groupsFacingErrors for one entry.
  abbrev pub has_errors : AllErrs L → Bool
  has_errors e =
      ltb 0 (length e.missed_alerts + length e.unexpected_alerts + length e.matching_errs)

  unfoldable pub facing : Dict (AllErrs L) → Dict Bool → Dict Bool
  facing [] g = g
  facing ((rg, e) ∷ m) g = facing m (if has_errors e then insert rg true g else g)

  -- groupsFacingErrors.
  unfoldable pub groups_facing_errors : AlertsServer L → Dict Bool
  unfolding facing
  groups_facing_errors s = if s.disabled then [] else facing s.errs []

  -- groupError.
  unfoldable pub group_error : AlertsServer L → Dict (AllErrs L)
  group_error s = if s.disabled then [] else s.errs

module _ {L : Type 0} where
  -- The order in which addExpectedAlerts sorts.
  abbrev pub ordering_less : ExpectedAlert L → ExpectedAlert L → Bool
  ordering_less a b = ltb a.ordering_id b.ordering_id

  -- The second loop of addExpectedAlerts: the lists that were added to are sorted.
  unfoldable pub sort_seen :
      Dict (Unit {0}) → Dict (List (ExpectedAlert L)) → Dict (List (ExpectedAlert L))
  sort_seen [] m = m
  sort_seen ((id, _) ∷ seen) m =
      sort_seen seen (insert id (sort_slice ordering_less (or_nil (lookup id m))) m)

  unfoldable pub collect_alerts :
      String
      → List (ExpectedAlert L)
      → Dict (List (ExpectedAlert L))
      → Dict (List (ExpectedAlert L))
  collect_alerts rg [] eae = eae
  collect_alerts rg (al ∷ als) eae =
      collect_alerts rg als
        (if al.resend then eae else insert rg (or_nil (lookup rg eae) ++ al ∷ []) eae)

  -- expectedAlertsError: what is still expected, without the resends, by label text.
  unfoldable pub collect_expected :
      Dict (List (ExpectedAlert L)) → Dict (List (ExpectedAlert L)) → Dict (List (ExpectedAlert L))
  unfolding collect_alerts
  collect_expected [] eae = eae
  collect_expected ((rg, eas) ∷ m) eae = collect_expected m (collect_alerts rg eas eae)

  unfoldable pub expected_alerts_error : AlertsServer L → Dict (List (ExpectedAlert L))
  unfolding collect_expected
  expected_alerts_error s = if s.disabled then [] else collect_expected s.expected_alerts []

module _ {L : Type 0} (api : AlertApi L) where
  -- addMissedAlerts.
  unfoldable pub add_missed_alerts : List (ExpectedAlert L) → Dict (AllErrs L) → Dict (AllErrs L)
  add_missed_alerts [] errs = errs
  add_missed_alerts (sa ∷ sas) errs =
      let rg = api.get_label sa.alert.labels "rulegroup" in
      add_missed_alerts sas (update_err rg (add_missed sa) (get_err rg errs))

  -- The first loop of addExpectedAlerts: each alert is filed under the text of its labels, and the
  -- texts seen are collected.
  unfoldable pub file_alerts :
      List (ExpectedAlert L)
      → Dict (List (ExpectedAlert L)) × Dict (Unit {0})
      → Dict (List (ExpectedAlert L)) × Dict (Unit {0})
  file_alerts [] (m, seen) = (m, seen)
  file_alerts (a ∷ rest) (m, seen) =
      let id = api.labels_string a.alert.labels in
      file_alerts rest (insert id (or_nil (lookup id m) ++ a ∷ []) m, insert id tt seen)

  -- addExpectedAlerts.
  unfoldable pub add_expected_alerts :
      List (ExpectedAlert L) → Dict (List (ExpectedAlert L)) → Dict (List (ExpectedAlert L))
  unfolding file_alerts sort_seen
  add_expected_alerts alerts m = let (m', seen) = file_alerts alerts (m, []) in sort_seen seen m'
