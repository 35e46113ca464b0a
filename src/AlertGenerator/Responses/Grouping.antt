-- ===== src/AlertGenerator/Responses/Grouping.antt =====
-- alert_generator/utils.go: the groups that the parsers make.
use mathlib.Core.List.{Perm, perm_middle}
use mathlib.Core.List.Perm
use compliance.Base.{
  ℤ, ◌≡◌, ◌∙◌, ap, refl, arith, inl, inr, Bool-cases, String, false, List, [], ◌∷◌, ◌++◌, map,
  append-nil, append_assoc, Option, some, Result, ok, Result-cases, ◌>>=◌, str_eq, str_eq_iff,
  if◌then◌else◌, or_nil, Dict, lookup, insert, lookup-insert,
}
use compliance.AlertGenerator.Api.{AlertApi}
use compliance.AlertGenerator.Cases.Checks.{Sample}
use compliance.AlertGenerator.Cases.Rules.{RuleGroup, Rule, alerting, AlertingRule}
use compliance.AlertGenerator.Responses.{
  ResponseError, append_to, group_items, rulegroup, AnsweredGroup, append_rules, rule_group_of,
  group_rules, Vector, JsonValue, number, text, other, sample_of, group_metrics,
}

module _ {X : Type 0} (name : X → String) where
  -- The items of a group, in their order.
  abbrev pub of_group : String → List X → List X
  of_group g [] = []
  of_group g (x ∷ xs) = let rest = of_group g xs in if str_eq (name x) g then x ∷ rest else rest

  append_to-lookup :
      (g k : String) (x : X) (m : Dict (List X))
      → or_nil (lookup g (append_to k x m))
        ≡ or_nil (lookup g m) ++ (if str_eq k g then x ∷ [] else [])
  unfolding append_to
  append_to-lookup g k x m = elim (Bool-cases (str_eq k g)) [
    | inl e ↦
        let same = (str_eq_iff k g).0 e in
        ground (arith, lookup-insert k g (or_nil (lookup k m) ++ x ∷ []) m)
    | inr e ↦ ground (
      arith,
      append-nil (or_nil (lookup g m)),
      lookup-insert k g (or_nil (lookup k m) ++ x ∷ []) m,
    )
  ]

  pub group_items-lookup :
      (g : String) (xs : List X) (m : Dict (List X))
      → or_nil (lookup g (group_items name xs m)) ≡ or_nil (lookup g m) ++ of_group g xs
  unfolding group_items
  group_items-lookup g [] m = grind (arith, append-nil)
  group_items-lookup g (x ∷ xs) m =
      let rest = group_items-lookup g xs (append_to (name x) x m) in
      let head = append_to-lookup g (name x) x m in
      elim (Bool-cases (str_eq (name x) g)) [
        | inl e ↦
            ground (arith, rest, head, append_assoc (or_nil (lookup g m)) (x ∷ []) (of_group g xs))
        | inr e ↦ ground (arith, rest, head, append-nil (or_nil (lookup g m)))
      ]

-- The items of all groups, one group after the other.
abbrev pub ungroup : {X : Type 0} → Dict (List X) → List X
ungroup [] = []
ungroup ((_, xs) ∷ m) = xs ++ ungroup m

append_to_skip :
    {X : Type 0} (k j : String) (x : X) (w : List X) (m : Dict (List X))
    → str_eq j k ≡ false
    → append_to k x ((j, w) ∷ m) ≡ (j, w) ∷ append_to k x m
unfolding append_to lookup insert
append_to_skip k j x w m e = ground arith

append_to-perm :
    {X : Type 0} (k : String) (x : X) (m : Dict (List X))
    → Perm (ungroup (append_to k x m)) (x ∷ ungroup m)
unfolding append_to lookup insert
append_to-perm k x [] = Perm.refl _
append_to-perm k x ((j, w) ∷ m) = elim (Bool-cases (str_eq j k)) [
  | inl e ↦ rw (e, append_assoc) (perm_middle w (ungroup m))
  | inr e ↦
      rw (append_to_skip k j x w m e)
        (Perm.trans (Perm.append_left w (append_to-perm k x m)) (perm_middle w (ungroup m)))
]

group_items-perm :
    {X : Type 0} (name : X → String) (xs : List X) (m : Dict (List X))
    → Perm (ungroup (group_items name xs m)) (ungroup m ++ xs)
unfolding group_items
group_items-perm name [] m = rw (append-nil (ungroup m)) Perm.rfl
group_items-perm name (x ∷ xs) m = Perm.trans (group_items-perm name xs (append_to (name x) x m)) (
    Perm.trans (Perm.append_right xs (append_to-perm (name x) x m))
      (Perm.symm (perm_middle (ungroup m) xs)))

-- Grouping loses no item and makes none up: the items of all groups together, in whatever order
-- the map gives its groups, are a permutation of the items of the answer.
pub group_items-ungroup :
    {X : Type 0} (name : X → String) (xs : List X) → Perm (ungroup (group_items name xs [])) xs
group_items-ungroup name xs = group_items-perm name xs []

module _ {L F : Type 0} where
  append_rules-map :
      (rs : List (AlertingRule L F)) (rules : List (Rule L F))
      → append_rules rs rules ≡ rules ++ map alerting rs
  unfolding append_rules
  append_rules-map [] rules = grind (arith, append-nil)
  append_rules-map (r ∷ rs) rules = grind (arith, append_assoc, append_rules-map rs)

  -- The last group of a name, after an earlier one.
  abbrev pub last_of :
      String → List (AnsweredGroup L F) → Option (RuleGroup L F) → Option (RuleGroup L F)
  last_of name [] before = before
  last_of name (g ∷ groups) before =
      last_of name groups (if str_eq g.name name then some (rule_group_of g) else before)

  pub group_rules-lookup :
      (name : String) (groups : List (AnsweredGroup L F)) (m : Dict (RuleGroup L F))
      → lookup name (group_rules groups m) ≡ last_of name groups (lookup name m)
  unfolding group_rules
  group_rules-lookup name [] m = refl
  group_rules-lookup name (g ∷ groups) m =
      group_rules-lookup name groups (insert g.name (rule_group_of g) m)
      ∙ ap (last_of name groups) (lookup-insert g.name name (rule_group_of g) m)

module _ {L F D : Type 0} (to_int64 : F → ℤ) (parse_float : String → Result D F) where
  -- The samples of all vectors, or the first error.
  abbrev pub samples_of : List (Vector L F) → Result (ResponseError D) (List (Sample L F))
  samples_of [] = ok []
  samples_of (s ∷ rest) =
      sample_of to_int64 parse_float s >>= (λ x. samples_of rest >>= (λ xs. ok (x ∷ xs)))

  sample_of-metric :
      (s : Vector L F) {x : Sample L F}
      → sample_of to_int64 parse_float s ≡ ok x
      → x.metric ≡ s.metric
  unfolding sample_of
  sample_of-metric s {x} h = go s.timestamp s.value refl refl
    where
      go : (t v : JsonValue F) → s.timestamp ≡ t → s.value ≡ v → x.metric ≡ s.metric
      go (number f) (text vs) p q = elim (Result-cases (parse_float vs)) [
        | inl (val, r) ↦ ground arith
        | inr (e, r) ↦ ground arith
      ]
      go (number f) (number _) p q = ground arith
      go (number f) other p q = ground arith
      go (text _) v p q = ground arith
      go other v p q = ground arith

  -- The metrics are the parsed samples, grouped by the label: the loop that parses and groups at
  -- once fails with the error of the first vector that has one, and groups the samples otherwise.
  pub group_metrics-samples_of :
      (api : AlertApi L) (vectors : List (Vector L F)) (m : Dict (List (Sample L F)))
      → group_metrics to_int64 parse_float api vectors m
        ≡ (samples_of vectors >>= (λ xs. ok (group_items (λ x. rulegroup api x.metric) xs m)))
  unfolding group_metrics group_items
  group_metrics-samples_of api [] m = refl
  group_metrics-samples_of api (s ∷ rest) m =
      elim (Result-cases (sample_of to_int64 parse_float s)) [
        | inl (x, p) ↦
            let same = sample_of-metric s p in
            let ih = group_metrics-samples_of api rest (append_to (rulegroup api x.metric) x m) in
            elim (Result-cases (samples_of rest)) [
              | inl (xs, q) ↦ rw (p, q, ← same) (ih ∙ rw q refl)
              | inr (e, q) ↦ rw (p, q, ← same) (ih ∙ rw q refl)
            ]
        | inr (e, p) ↦ rw p refl
      ]
