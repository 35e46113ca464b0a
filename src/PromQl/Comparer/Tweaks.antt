-- ===== src/PromQl/Comparer/Tweaks.antt =====
-- How the query tweaks shape the comparison (promql/comparer/comparer.go).
use compliance.Base.{
  ◌≡◌, refl, sym, ◌∙◌, Option, none, some, true, false, List, [], ◌∷◌, ◌++◌, append_assoc,
  append-nil, if◌then◌else◌, is_empty,
}
use compliance.PromQl.Config.{QueryTweak}
use compliance.PromQl.Comparer.{
  ComparerApi, CompareOption, translate_float, equate_approx, equate_nans, drop_labels,
  to_lower_case, float_tolerance, or_before, add_float_compare_options,
  add_drop_result_labels_options, add_case_insensitive_compare_options, new_options,
}

module _ {F : Type 0} where
  -- The last value that a tweak sets, or the default.
  abbrev last_set : {A : Type 0} → (QueryTweak F → Option A) → List (QueryTweak F) → A → A
  last_set get [] a = a
  last_set get (t ∷ ts) a = last_set get ts (or_before (get t) a)

  abbrev fraction_of : QueryTweak F → Option F
  fraction_of rt = elim rt.adjust_value_tolerance [ none ↦ none | some t ↦ t.fraction ]

  abbrev margin_of : QueryTweak F → Option F
  margin_of rt = elim rt.adjust_value_tolerance [ none ↦ none | some t ↦ t.margin ]

  abbrev pub drops : List (QueryTweak F) → List (CompareOption F)
  drops [] = []
  drops (rt ∷ ts) =
      let rest = drops ts in
      if is_empty rt.drop_result_labels then rest else drop_labels rt.drop_result_labels ∷ rest

  abbrev lowers : List (QueryTweak F) → List (CompareOption F)
  lowers [] = []
  lowers (rt ∷ ts) = let rest = lowers ts in if rt.ignore_case then to_lower_case ∷ rest else rest

module _ {F S : Type 0} (api : ComparerApi F S) where
  float_tolerance-last :
      (tweaks : List (QueryTweak F)) (fraction margin : F)
      → float_tolerance api tweaks fraction margin
        ≡ (last_set fraction_of tweaks fraction, last_set margin_of tweaks margin)
  unfolding float_tolerance
  float_tolerance-last [] f m = refl
  float_tolerance-last (rt ∷ ts) f m =
      elim rt.adjust_value_tolerance
        as (λ o.
          elim o as (λ _. F × F) [
            | none ↦ float_tolerance api ts f m
            | some t ↦ float_tolerance api ts (or_before t.fraction f) (or_before t.margin m)
          ]
          ≡ (
            last_set fraction_of ts
                (or_before (elim o as (λ _. Option F) [ none ↦ none | some t ↦ t.fraction ]) f),
            last_set margin_of ts
                (or_before (elim o as (λ _. Option F) [ none ↦ none | some t ↦ t.margin ]) m),
          )) [
            | none ↦ float_tolerance-last ts f m
            | some t ↦ float_tolerance-last ts (or_before t.fraction f) (or_before t.margin m)
          ]

  add_drop_result_labels_options-drops :
      (tweaks : List (QueryTweak F)) (options : List (CompareOption F))
      → add_drop_result_labels_options api tweaks options ≡ options ++ drops tweaks
  unfolding add_drop_result_labels_options
  add_drop_result_labels_options-drops [] os = sym (append-nil os)
  add_drop_result_labels_options-drops (rt ∷ ts) os =
      elim rt.drop_result_labels
        as (λ l.
          add_drop_result_labels_options api ts
            (if is_empty l then os else os ++ drop_labels l ∷ [])
          ≡ os ++ (if is_empty l then drops ts else drop_labels l ∷ drops ts)) [
            | [] ↦ add_drop_result_labels_options-drops ts os
            | l ∷ ls ↦
                add_drop_result_labels_options-drops ts (os ++ drop_labels (l ∷ ls) ∷ [])
                ∙ append_assoc os (drop_labels (l ∷ ls) ∷ []) (drops ts)
          ]

  add_case_insensitive_compare_options-lowers :
      (tweaks : List (QueryTweak F)) (options : List (CompareOption F))
      → add_case_insensitive_compare_options api tweaks options ≡ options ++ lowers tweaks
  unfolding add_case_insensitive_compare_options
  add_case_insensitive_compare_options-lowers [] os = sym (append-nil os)
  add_case_insensitive_compare_options-lowers (rt ∷ ts) os =
      elim rt.ignore_case
        as (λ b.
          add_case_insensitive_compare_options api ts (if b then os ++ to_lower_case ∷ [] else os)
          ≡ os ++ (if b then to_lower_case ∷ lowers ts else lowers ts)) [
            | false ↦ add_case_insensitive_compare_options-lowers ts os
            | true ↦
                add_case_insensitive_compare_options-lowers ts (os ++ to_lower_case ∷ [])
                ∙ append_assoc os (to_lower_case ∷ []) (lowers ts)
          ]

  -- The options of a comparison, in this order: samples compared as floats within the fraction and
  -- the margin that the last tweak with such a value sets, or the defaults, NaN equal to NaN; for
  -- each tweak that lists labels, these dropped; for each tweak that ignores case, lower case.
  new_options_in_order :
      (tweaks : List (QueryTweak F))
      → new_options api tweaks
        ≡ translate_float
            ∷ equate_approx
                (last_set fraction_of tweaks api.default_fraction)
                (last_set margin_of tweaks api.default_margin)
            ∷ equate_nans
            ∷ drops tweaks
          ++ lowers tweaks
  unfolding new_options add_float_compare_options
  new_options_in_order ts = simp (
    add_case_insensitive_compare_options-lowers, add_drop_result_labels_options-drops,
    float_tolerance-last,
  )
