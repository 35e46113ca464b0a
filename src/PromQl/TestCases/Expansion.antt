-- ===== src/PromQl/TestCases/Expansion.antt =====
-- What ExpandTestCases makes of the patterns, and what the query tweaks keep.
use compliance.Base.{
  not, ◌≤◌, ◌≡◌, refl, ◌∙◌, String, Bool, List, [], ◌∷◌, ◌++◌, arith, length, ok, err, Result,
  Result-cases, ◌>>=◌, inl, inr, sym, All, Distinct,
}
use compliance.PromQl.Time.{ℤ, Instant, milliseconds, is_zero, truncate_mono, add_mono}
use compliance.PromQl.Config.{QueryTweak, Pattern}
use compliance.PromQl.TestCases.{
  Args, no_args, Failure, Templates, TestCase, apply_tweak, truncate_ends, align_ends, offset_ends,
  apply_query_tweaks, get_variants, expand_queries, expand_test_cases,
}
use compliance.PromQl.TestCases.Variants.{IsKnown, product, get_variants-product}

-- What a tweak must not change, and that the range does not turn round.
pub record Follows (tc tc' : TestCase) : Type 0 where
  pub same_query : tc'.query ≡ tc.query
  pub same_skip : tc'.skip_comparison ≡ tc.skip_comparison
  pub same_fail : tc'.should_fail ≡ tc.should_fail
  pub same_resolution : tc'.resolution ≡ tc.resolution
  pub in_order : tc.start ≤ tc.end → tc'.start ≤ tc'.end

truncate_ends-Follows :
    (wanted : Bool) (d : ℤ) (tc : TestCase) → Follows tc (truncate_ends wanted d tc)
unfolding truncate_ends
truncate_ends-Follows wanted d tc = ground (arith, truncate_mono tc.start tc.end d)

align_ends-Follows : (wanted : Bool) (tc : TestCase) → Follows tc (align_ends wanted tc)
unfolding align_ends
align_ends-Follows wanted tc = truncate_ends-Follows wanted tc.resolution tc

offset_ends-Follows : (wanted : Bool) (d : ℤ) (tc : TestCase) → Follows tc (offset_ends wanted d tc)
unfolding offset_ends
offset_ends-Follows wanted d tc = ground (arith, add_mono tc.start tc.end d)

Follows-refl : (tc : TestCase) → Follows tc tc
Follows-refl tc = ground arith

Follows-trans : (a b c : TestCase) → Follows a b → Follows b c → Follows a c
Follows-trans a b c p q = record {
  same_query = q.same_query ∙ p.same_query;
  same_skip = q.same_skip ∙ p.same_skip;
  same_fail = q.same_fail ∙ p.same_fail;
  same_resolution = q.same_resolution ∙ p.same_resolution;
  in_order = λ h. q.in_order (p.in_order h);
}

module _ {F : Type 0} where
  apply_tweak-Follows : (t : QueryTweak F) (tc : TestCase) → Follows tc (apply_tweak t tc)
  unfolding apply_tweak
  apply_tweak-Follows t tc =
      let d = milliseconds t.truncate_timestamps_to_ms in
      let o = milliseconds t.offset_timestamps_by_ms in
      let tc₁ = truncate_ends (not (is_zero d)) d tc in
      let tc₂ = align_ends t.align_timestamps_to_step tc₁ in
      Follows-trans tc tc₁ _ (truncate_ends-Follows (not (is_zero d)) d tc) (
        Follows-trans tc₁ tc₂ _ (align_ends-Follows t.align_timestamps_to_step tc₁)
          (offset_ends-Follows (not (is_zero o)) o tc₂))

  apply_query_tweaks-Follows :
      (tweaks : List (QueryTweak F)) (tc : TestCase) → Follows tc (apply_query_tweaks tweaks tc)
  unfolding apply_query_tweaks
  apply_query_tweaks-Follows [] tc = Follows-refl tc
  apply_query_tweaks-Follows (t ∷ tweaks) tc =
      Follows-trans tc (apply_tweak t tc) _ (apply_tweak-Follows t tc)
        (apply_query_tweaks-Follows tweaks (apply_tweak t tc))

-- The patterns name distinct, known arguments.
abbrev pub AreSound : List Pattern → Type 0
AreSound [] = Unit {0}
AreSound (q ∷ cases) = (Distinct q.variant_args × All IsKnown q.variant_args) × AreSound cases

-- The queries of each pattern: its template expanded for every combination of values, up to the
-- first panic.
abbrev pub all_queries :
    {T : Type 0} → Templates T → List Pattern → Result Failure (List (List String))
all_queries templates [] = ok []
all_queries templates (q ∷ cases) = product templates q.query q.variant_args no_args >>= λ vs.
    all_queries templates cases >>= λ rest. ok (vs ∷ rest)

module _ {F : Type 0} (tweaks : List (QueryTweak F)) (start end : Instant) (resolution : ℤ) where
  -- A test case that stands for a query of the pattern.
  abbrev StandsFor : Pattern → String → TestCase → Type 0
  StandsFor q query tc =
      (tc.query ≡ query)
      × (tc.skip_comparison ≡ q.skip_comparison)
      × (tc.should_fail ≡ q.should_fail)
      × (tc.resolution ≡ resolution)
      × (start ≤ end → tc.start ≤ tc.end)

  -- The test cases stand for the queries, in order.
  abbrev StandFor : Pattern → List String → List TestCase → Type 0
  StandFor q [] [] = Unit {0}
  StandFor q (v ∷ vs) (tc ∷ tcs) = StandsFor q v tc × StandFor q vs tcs
  StandFor q _ _ = ⊥

  expand_queries-StandFor :
      (q : Pattern) (vs : List String)
      → StandFor q vs (expand_queries tweaks start end resolution q vs)
  unfolding expand_queries
  expand_queries-StandFor q [] = tt
  expand_queries-StandFor q (v ∷ vs) =
      let f = apply_query_tweaks-Follows tweaks (record {
        query = v;
        skip_comparison = q.skip_comparison;
        should_fail = q.should_fail;
        start = start;
        end = end;
        resolution = resolution;
      }) in
      (
        (f.same_query, f.same_skip, f.same_fail, f.same_resolution, f.in_order),
        expand_queries-StandFor q vs,
      )

  -- The test cases are those of the queries of each pattern, one pattern after the other.
  abbrev ArePieced : List Pattern → List (List String) → List TestCase → Type 0
  ArePieced [] [] tcs = tcs ≡ []
  ArePieced (q ∷ cases) (vs ∷ queries) tcs =
      (first : List TestCase) × (rest : List TestCase) × (tcs ≡ first ++ rest)
      × StandFor q vs first
      × ArePieced cases queries rest
  ArePieced _ _ tcs = ⊥

  -- The run makes the test cases of the queries, or fails as the expansion of the templates does.
  abbrev pub Pieces :
      List Pattern → Result Failure (List (List String)) → Result Failure (List TestCase) → Type 0
  Pieces cases (ok queries) r = (tcs : List TestCase) × (r ≡ ok tcs) × ArePieced cases queries tcs
  Pieces cases (err f) r = r ≡ err f

  module _ {T : Type 0} (templates : Templates T) where
    abbrev expand : List Pattern → Result Failure (List TestCase)
    expand = expand_test_cases tweaks start end resolution templates

    -- A pattern in front of others, when its own queries are known.
    cons-Pieces :
        (q : Pattern) (cases : List Pattern) (vs : List String) (args : Args)
        (rest : Result Failure (List (List String)))
        → get_variants templates (length q.variant_args) q.query q.variant_args no_args
          ≡ ok (vs, args)
        → Pieces cases rest (expand cases)
        → Pieces (q ∷ cases) (rest >>= λ queries. ok (vs ∷ queries)) (expand (q ∷ cases))
    unfolding expand_test_cases
    cons-Pieces q cases vs args (ok queries) e (tcs, e', pieced) =
        let first = expand_queries tweaks start end resolution q vs in
        (first ++ tcs, rw (e, e') refl, (first, tcs, refl, expand_queries-StandFor q vs, pieced))
    cons-Pieces q cases vs args (err f) e e' = rw (e, e') refl

    expand_err :
        (q : Pattern) (cases : List Pattern) (f : Failure)
        → get_variants templates (length q.variant_args) q.query q.variant_args no_args ≡ err f
        → expand (q ∷ cases) ≡ err f
    unfolding expand_test_cases
    expand_err q cases f e = rw e refl

    -- On patterns that name distinct, known arguments, ExpandTestCases succeeds exactly if every
    -- template expands for every combination of values of its arguments, and panics otherwise as
    -- tprintf does for the first one that does not expand. When it succeeds, it makes a test case of
    -- each combination, pattern by pattern and in the order of the combinations, with the expanded
    -- query, the flags of the pattern and the given resolution, and with a range that is not turned
    -- round if the given one is not.
    pub expand_test_cases-ArePieced :
        (cases : List Pattern)
        → AreSound cases
        → Pieces cases
            (all_queries templates cases)
            (expand_test_cases tweaks start end resolution templates cases)
    unfolding expand_test_cases
    expand_test_cases-ArePieced [] s = ([], refl, refl)
    expand_test_cases-ArePieced (q ∷ cases) s =
        let queries = product templates q.query q.variant_args no_args in
        let made =
          get_variants-product templates (length q.variant_args) q.query q.variant_args no_args
            (omega arith) s.0.0 s.0.1 in
        elim (Result-cases
          (get_variants templates (length q.variant_args) q.query q.variant_args no_args)) [
            | inl ((vs, args), e) ↦
                let found : queries ≡ ok vs = sym (rw e at made) in
                rw found (
                  cons-Pieces q cases vs args (all_queries templates cases) e
                    (expand_test_cases-ArePieced cases s.1))
            | inr (f, e) ↦
                let found : queries ≡ err f = sym (rw e at made) in
                rw found (expand_err q cases f e)
          ]
