-- ===== src/PromQl/TestCases.antt =====
-- promql/testcases/expand.go: the expansion of query patterns into test cases. A Go map of template
-- arguments is a function. Parsing and executing a template (text/template) are operations of an
-- interface, which may fail. A duration in milliseconds that does not fit into 64 bits is outside the model.
pub mod Variants
pub mod Expansion
use compliance.Base.{
  ℕ, zero, suc, String, Bool, not, List, [], ◌∷◌, ◌++◌, Option, none, some, str_eq, if◌then◌else◌,
  is_empty, length, or_nil, Dict, lookup, Result, ok, err, ◌>>=◌,
}
use compliance.PromQl.Time.{ℤ, Instant, milliseconds, is_zero, truncate, add}
use compliance.PromQl.Config.{QueryTweak, Pattern}

-- testVariantArgs.
abbrev test_variant_args : Dict (List String)
test_variant_args =
    ("range", "1s" ∷ "15s" ∷ "1m" ∷ "5m" ∷ "15m" ∷ "1h" ∷ [])
    ∷ ("offset", "1m" ∷ "5m" ∷ "10m" ∷ [])
    ∷ ("simpleAggrOp", "sum" ∷ "avg" ∷ "max" ∷ "min" ∷ "count" ∷ "stddev" ∷ "stdvar" ∷ [])
    ∷ (
      "simpleTimeAggrOp",
      "sum" ∷ "avg" ∷ "max" ∷ "min" ∷ "count" ∷ "stddev" ∷ "stdvar" ∷ "absent" ∷ "last" ∷ [],
    )
    ∷ ("topBottomOp", "topk" ∷ "bottomk" ∷ [])
    ∷ ("quantile", "-0.5" ∷ "0.1" ∷ "0.5" ∷ "0.75" ∷ "0.95" ∷ "0.90" ∷ "0.99" ∷ "1" ∷ "1.5" ∷ [])
    ∷ ("arithBinOp", "+" ∷ "-" ∷ "*" ∷ "/" ∷ "%" ∷ "^" ∷ [])
    ∷ ("compBinOp", "==" ∷ "!=" ∷ "<" ∷ ">" ∷ "<=" ∷ ">=" ∷ [])
    ∷ ("binOp", "+" ∷ "-" ∷ "*" ∷ "/" ∷ "%" ∷ "^" ∷ "==" ∷ "!=" ∷ "<" ∷ ">" ∷ "<=" ∷ ">=" ∷ [])
    ∷ (
      "simpleMathFunc",
      "abs" ∷ "ceil" ∷ "floor" ∷ "exp" ∷ "sqrt" ∷ "ln" ∷ "log2" ∷ "log10" ∷ "round" ∷ [],
    )
    ∷ ("extrapolatedRateFunc", "delta" ∷ "rate" ∷ "increase" ∷ [])
    ∷ ("clampFunc", "clamp_min" ∷ "clamp_max" ∷ [])
    ∷ ("instantRateFunc", "idelta" ∷ "irate" ∷ [])
    ∷ (
      "dateFunc",
      "day_of_month" ∷ "day_of_week" ∷ "days_in_month" ∷ "hour" ∷ "minute" ∷ "month" ∷ "year" ∷ [],
    )
    ∷ ("smoothingFactor", "0.1" ∷ "0.5" ∷ "0.8" ∷ [])
    ∷ ("trendFactor", "0.1" ∷ "0.5" ∷ "0.8" ∷ [])
    ∷ []

-- The values of a variant argument; an unknown one has none.
unfoldable pub variants : String → List String
variants arg = or_nil (lookup arg test_variant_args)

-- The template arguments set so far.
abbrev pub Args : Type 0
Args = String → Option String

abbrev pub no_args : Args
no_args = λ _. none

-- `args[k] = v`.
unfoldable pub set_arg : String → String → Args → Args
set_arg k v args = λ j. if str_eq k j then some v else args j

-- How an expansion can fail: the panics of tprintf for a template that does not parse or execute,
-- that of getVariants, and fuel that runs out.
pub data Failure : Type 0 where
  not_parsed not_executed : String → Failure
  unknown_arg : String → Failure
  out_of_fuel : Failure

-- text/template: `none` is an error of Parse or of Execute.
pub record Templates (T : Type 0) : Type 0 where
  pub parse : String → Option T
  pub execute : T → Args → Option String

-- tprintf.
unfoldable pub tprintf : {T : Type 0} → Templates T → String → Args → Result Failure String
tprintf templates tmpl values = elim (templates.parse tmpl) [
  | none ↦ err (not_parsed tmpl)
  | some t ↦ elim (templates.execute t values) [
    | none ↦ err (not_executed tmpl)
    | some query ↦ ok query
  ]
]

-- The queries, and the map of arguments as the calls leave it.
abbrev Expanded : Type 0
Expanded = Result Failure (List String × Args)

-- filteredVArgs: the arguments that differ from the first one.
unfoldable pub filtered_args : String → List String → List String
filtered_args arg [] = []
filtered_args arg (va ∷ vas) =
    let rest = filtered_args arg vas in if str_eq va arg then rest else va ∷ rest

-- The loop over the values of an argument; `rec` is the recursive call of getVariants.
unfoldable for_values : (Args → Expanded) → String → List String → Args → Expanded
for_values rec arg [] args = ok ([], args)
for_values rec arg (v ∷ vs) args =
    rec (set_arg arg v args) >>= λ r. for_values rec arg vs r.1 >>= λ r'. ok (r.0 ++ r'.0, r'.1)

module _ {T : Type 0} (templates : Templates T) where
  -- The single query when no argument remains.
  abbrev single : String → Args → Expanded
  single query args = tprintf templates query args >>= λ q. ok (q ∷ [], args)

  -- getVariants. Each level takes an argument away, so the number of arguments is fuel enough.
  unfoldable pub get_variants : ℕ → String → List String → Args → Expanded
  unfolding for_values tprintf
  get_variants zero query [] args = single query args
  get_variants zero query (_ ∷ _) args = err out_of_fuel
  get_variants (suc fuel) query [] args = single query args
  get_variants (suc fuel) query (arg ∷ rest) args =
      if is_empty (variants arg)
      then err (unknown_arg arg)
      else for_values (get_variants fuel query (filtered_args arg (arg ∷ rest))) arg (variants arg)
          args

-- comparer.TestCase.
pub record TestCase : Type 0 where
  pub query : String
  pub skip_comparison : Bool
  pub should_fail : Bool
  pub start : Instant
  pub end : Instant
  pub resolution : ℤ

-- The three parts of the loop body of applyQueryTweaks: each changes both ends or none.
unfoldable pub truncate_ends : Bool → ℤ → TestCase → TestCase
truncate_ends wanted d tc =
    if wanted then record tc { start = truncate tc.start d; end = truncate tc.end d } else tc

unfoldable pub align_ends : Bool → TestCase → TestCase
unfolding truncate_ends
align_ends wanted tc = truncate_ends wanted tc.resolution tc

unfoldable pub offset_ends : Bool → ℤ → TestCase → TestCase
offset_ends wanted d tc =
    if wanted then record tc { start = add tc.start d; end = add tc.end d } else tc

-- The loop body of applyQueryTweaks.
unfoldable pub apply_tweak : {F : Type 0} → QueryTweak F → TestCase → TestCase
apply_tweak t tc =
    let d = milliseconds t.truncate_timestamps_to_ms in
    let o = milliseconds t.offset_timestamps_by_ms in
    offset_ends (not (is_zero o)) o
      (align_ends t.align_timestamps_to_step (truncate_ends (not (is_zero d)) d tc))

-- applyQueryTweaks.
unfoldable pub apply_query_tweaks : {F : Type 0} → List (QueryTweak F) → TestCase → TestCase
apply_query_tweaks [] tc = tc
apply_query_tweaks (t ∷ tweaks) tc = apply_query_tweaks tweaks (apply_tweak t tc)

module _ {F : Type 0} (tweaks : List (QueryTweak F)) (start end : Instant) (resolution : ℤ) where
  -- The inner loop of ExpandTestCases.
  unfoldable expand_queries : Pattern → List String → List TestCase
  expand_queries q [] = []
  expand_queries q (v ∷ vs) =
      apply_query_tweaks tweaks (record {
        query = v;
        skip_comparison = q.skip_comparison;
        should_fail = q.should_fail;
        start = start;
        end = end;
        resolution = resolution;
      })
      ∷ expand_queries q vs

  -- ExpandTestCases.
  unfoldable pub expand_test_cases :
      {T : Type 0} → Templates T → List Pattern → Result Failure (List TestCase)
  unfolding get_variants expand_queries
  expand_test_cases templates [] = ok []
  expand_test_cases templates (q ∷ cases) =
      get_variants templates (length q.variant_args) q.query q.variant_args no_args >>= λ r.
      expand_test_cases templates cases >>= λ tcs. ok (expand_queries q r.0 ++ tcs)
