-- ===== src/PromQl/Output.antt =====
-- promql/output: what Text (text.go), TSV (tsv.go) and the functions of the HTML template (html.go)
-- count over the results, and the word that TSV prints for each. Writing to standard output and the
-- percentages are not modelled.
pub mod Totals
use compliance.Base.{
  ℕ, suc, ◌-◌, String, Bool, true, false, not, ◌||◌, List, [], ◌∷◌, length, if◌then◌else◌,
}
use compliance.PromQl.Comparer.{Comparison, success}

-- A pair of counts: the successes and the unsupported results.
abbrev Counts : Type 0
Counts = ℕ × ℕ

-- The loop of Text. A success that is not shown skips the count of the unsupported results.
unfoldable text_counts : Bool → List Comparison → Counts → Counts
text_counts including [] counts = counts
text_counts including (res ∷ results) (successes, unsupported) = text_counts including results (
    if success res
    then (if including
        then (suc successes, if res.unsupported then suc unsupported else unsupported)
        else (suc successes, unsupported))
    else (successes, if res.unsupported then suc unsupported else unsupported))

-- The loop of TSV.
unfoldable tsv_counts : List Comparison → Counts → Counts
tsv_counts [] counts = counts
tsv_counts (res ∷ results) (successes, unsupported) = tsv_counts results (
  (if success res then suc successes else successes),
  (if res.unsupported then suc unsupported else unsupported),
)

-- The last column of a row, in Text and in TSV.
pub data Word : Type 0 where
  says_passed : Word
  says_unsupported : Word
  says_failed : Word

unfoldable word : Comparison → Word
word res =
    if success res then says_passed else if res.unsupported then says_unsupported else says_failed

-- totalTestCases - successes - unsupported; Go's int goes below zero where ℕ stops.
unfoldable total_failed : List Comparison → ℕ
unfolding tsv_counts
total_failed results =
    let (successes, unsupported) = tsv_counts results (0, 0) in
    length results - successes - unsupported

-- numPassed and numFailed of the HTML template.
unfoldable num_passed : List Comparison → ℕ
num_passed [] = 0
num_passed (r ∷ results) = let rest = num_passed results in if success r then suc rest else rest

unfoldable num_failed : List Comparison → ℕ
num_failed [] = 0
num_failed (r ∷ results) =
    let rest = num_failed results in if not (success r) then suc rest else rest

-- include of the HTML template.
unfoldable include : Bool → Comparison → Bool
include including result = including || not (success result)
