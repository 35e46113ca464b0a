-- ===== src/AlertGenerator/Cases/Common/Groups.antt =====
-- The lists that the cases build under conditions, and the alerts of an expected rule group.
use compliance.Base.{
  ℕ, ◌≡◌, ap, refl, Bool, true, false, List, [], ◌∷◌, ◌++◌, map, Option, some, none,
}
use compliance.AlertGenerator.Cases.Checks.{ApiAlert}
use compliance.AlertGenerator.Cases.Rules.{RuleGroup, alerting_rules, rule_alerts}
use compliance.AlertGenerator.Cases.Common.{when}

-- The alerts of an expected group, as checkExpectedRuleGroup collects them.
abbrev pub alerts_of : {L : Type 0} → RuleGroup L ℕ → Option (List (ApiAlert L))
alerts_of rg = elim (alerting_rules rg.rules) [ none ↦ none | some ars ↦ some (rule_alerts ars) ]

pub map-when :
    {X Y Z : Type 0} (f : X → Z) (g : Y → Z) (b : Bool) (x : X) (y : Y)
    → f x ≡ g y
    → map f (when b x) ≡ map g (when b y)
map-when f g true x y e = ap (λ z. z ∷ []) e
map-when f g false x y e = refl

pub map-when_append :
    {X Y Z : Type 0} (f : X → Z) (g : Y → Z) (b : Bool) (x : X) (y : Y) (l : List X) (m : List Y)
    → f x ≡ g y
    → map f l ≡ map g m
    → map f (when b x ++ l) ≡ map g (when b y ++ m)
map-when_append f g true x y l m e h = cc (e, h)
map-when_append f g false x y l m e h = h
