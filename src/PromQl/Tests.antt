-- ===== src/PromQl/Tests.antt =====
-- Runs of the PromQL tester on small inputs.
use compliance.Base.{
  ℕ, ◌≡◌, ◌↔◌, refl, String, true, false, none, some, arith, List, [], ◌∷◌, All, lookup, str_eq,
  str_eq_iff, Distinct, ok, err, ◌>>=◌, if◌then◌else◌,
}
use compliance.PromQl.Time.{pos, negsuc}
use compliance.PromQl.Config.{QueryTweak, Pattern}
use compliance.PromQl.TestCases.{
  no_args, not_parsed, Templates, tprintf, TestCase, set_arg, variants, filtered_args, get_variants,
  expand_test_cases,
}
use compliance.PromQl.TestCases.Variants.{IsKnown, product, get_variants-product}
use compliance.PromQl.TestCases.Expansion.{
  AreSound, all_queries, Pieces, expand_test_cases-ArePieced,
}
use compliance.PromQl.Comparer.{
  matrix, Response, value, failure, ComparerApi, Comparison, no_differences, compare,
}
use compliance.PromQl.Comparer.Verdicts.{Agrees, passes, passes-compare}

-- A template is the name of an argument, which stands for its value, or a text; "{{" does not parse.
abbrev named : Templates String
named = record {
  parse = λ s. if str_eq s "{{" then none else some s;
  execute = λ t args. elim (args t) [ none ↦ some t | some v ↦ some v ];
}

abbrev two_args : List String
two_args = "topBottomOp" ∷ "clampFunc" ∷ []

two_args-Distinct : Distinct two_args
two_args-Distinct = ((ground (arith, str_eq_iff "topBottomOp" "clampFunc"), tt), (tt, tt))

two_args-IsKnown : All IsKnown two_args
unfolding variants lookup
two_args-IsKnown = (refl, (refl, tt))

get_variants-product_example :
    (get_variants named 2 "clampFunc" two_args no_args >>= λ r. ok r.0)
    ≡ product named "clampFunc" two_args no_args
get_variants-product_example =
    get_variants-product named 2 "clampFunc" two_args no_args (omega arith) two_args-Distinct
      two_args-IsKnown

abbrev pattern : Pattern
pattern = record {
  query = "clampFunc";
  variant_args = two_args;
  skip_comparison = false;
  should_fail = false;
}

abbrev tweak : QueryTweak ℕ
tweak = record {
  note = "";
  no_bug = true;
  truncate_timestamps_to_ms = pos 7;
  align_timestamps_to_step = true;
  offset_timestamps_by_ms = negsuc 3;
  drop_result_labels = "job" ∷ [];
  ignore_first_step = true;
  ignore_case = true;
  adjust_value_tolerance = some (record { fraction = some 5; margin = none });
}

abbrev test_case : TestCase
test_case = record {
  query = "q";
  skip_comparison = false;
  should_fail = false;
  start = 1000000000;
  end = 2000000000;
  resolution = pos 10;
}

patterns-AreSound : AreSound (pattern ∷ [])
patterns-AreSound = ((two_args-Distinct, two_args-IsKnown), tt)

expand_test_cases-ArePieced_example :
    Pieces
      (tweak ∷ [])
      10
      20
      (pos 5)
      (pattern ∷ [])
      (all_queries named (pattern ∷ []))
      (expand_test_cases (tweak ∷ []) 10 20 (pos 5) named (pattern ∷ []))
expand_test_cases-ArePieced_example =
    expand_test_cases-ArePieced (tweak ∷ []) 10 20 (pos 5) named (pattern ∷ []) patterns-AreSound

all_queries_expand :
    all_queries named (pattern ∷ [])
    ≡ ok (("clamp_min" ∷ "clamp_max" ∷ "clamp_min" ∷ "clamp_max" ∷ []) ∷ [])
unfolding variants lookup tprintf set_arg
all_queries_expand = refl

-- A template that does not parse makes the expansion panic.
bad_template :
    expand_test_cases (tweak ∷ []) 10 20 (pos 5) named (record pattern { query = "{{" } ∷ [])
    ≡ err (not_parsed "{{")
unfolding expand_test_cases get_variants variants lookup tprintf set_arg filtered_args
bad_template = refl

abbrev comparer : ComparerApi ℕ ℕ
comparer = record {
  default_fraction = 1;
  default_margin = 2;
  diff = λ w v options. "";
  matrix_less = λ a b. true;
  contains_501 = λ e. false;
  to_lower = λ s. s;
}

abbrev ref_answer : Response ℕ
ref_answer = value (matrix [])

abbrev timeout : Response ℕ
timeout = failure "timeout"

passes-compare_example :
    (passes (compare comparer (tweak ∷ []) test_case ref_answer ref_answer) ≡ true)
    ↔ Agrees comparer (tweak ∷ []) test_case ref_answer ref_answer
passes-compare_example = passes-compare comparer (tweak ∷ []) test_case ref_answer ref_answer tt

-- A test API that answers 501 where "501" is the only such text.
abbrev strict : ComparerApi ℕ ℕ
strict = record comparer { contains_501 = λ e. str_eq e "501" }

abbrev refused : Comparison
refused = record no_differences { unexpected_failure = "501"; unsupported = true }

abbrev results : List Comparison
results = no_differences ∷ refused ∷ []
