-- ===== src/PromQl/Output/Totals.antt =====
-- The counts of promql/output against the rows they sum up.
use compliance.Base.{
  ◌≡◌, refl, ap, ◌∙◌, ℕ, suc, ◌+◌, Bool, true, false, ◌&&◌, List, [], ◌∷◌, All, length, count_if,
  if◌then◌else◌, arith,
}
use compliance.PromQl.Comparer.{Comparison, success}
use compliance.PromQl.Output.{
  Counts, text_counts, tsv_counts, Word, says_passed, says_unsupported, says_failed, word,
  total_failed,
}

-- No result is a success and unsupported: so are the results of Compare.
abbrev CountsOnce : List Comparison → Type 0
CountsOnce = All (λ r. success r && r.unsupported ≡ false)

abbrev is_passed : Word → Bool
is_passed says_passed = true
is_passed _ = false

abbrev is_unsupported : Word → Bool
is_unsupported says_unsupported = true
is_unsupported _ = false

abbrev is_failed : Word → Bool
is_failed says_failed = true
is_failed _ = false

-- How many rows of a report print a word.
abbrev rows : (Word → Bool) → List Comparison → ℕ
rows p = count_if (λ r. p (word r))

-- The rows of a report are the passed, the unsupported and the failed ones.
rows-total :
    (results : List Comparison)
    → length results ≡ rows is_passed results + rows is_unsupported results + rows is_failed results
unfolding word
rows-total [] = omega arith
rows-total (r ∷ rs) = ground (arith, rows-total rs)

tsv_counts-rows :
    (results : List Comparison) (c : Counts)
    → CountsOnce results
    → ((tsv_counts results c).0 ≡ c.0 + rows is_passed results)
      × ((tsv_counts results c).1 ≡ c.1 + rows is_unsupported results)
unfolding tsv_counts word
tsv_counts-rows [] c h = (omega arith, omega arith)
tsv_counts-rows (r ∷ rs) (s, u) h =
    let next : Counts = ((if success r then suc s else s), (if r.unsupported then suc u else u)) in
    let (is, iu) = tsv_counts-rows rs next h.1 in (ground (arith, is, h.0), ground (arith, iu, h.0))

next_counts :
    (passes including more : Bool) (s u : ℕ)
    → passes && more ≡ false
    → ◌≡◌ {A = Counts}
        (if passes
          then (if including then (suc s, if more then suc u else u) else (suc s, u))
          else (s, if more then suc u else u))
        ((if passes then suc s else s), (if more then suc u else u))
next_counts true true false s u h = refl
next_counts true false false s u h = refl
next_counts true including true s u h = cc
next_counts false including more s u h = refl

text_counts-tsv :
    (including : Bool) (results : List Comparison) (c : Counts)
    → CountsOnce results
    → text_counts including results c ≡ tsv_counts results c
unfolding text_counts tsv_counts
text_counts-tsv including [] c h = refl
text_counts-tsv including (r ∷ rs) (s, u) h =
    ap (text_counts including rs) (next_counts (success r) including r.unsupported s u h.0)
    ∙ text_counts-tsv including rs _ h.1

-- TSV and Text, in either mode, print the numbers of the rows that say PASSED and UNSUPPORTED, and
-- TSV's number of the failed is that of the rows that say FAILED, where no result is both a success
-- and unsupported.
counts-rows :
    (including : Bool) (results : List Comparison)
    → CountsOnce results
    → (text_counts including results (0, 0) ≡ tsv_counts results (0, 0))
      × ((tsv_counts results (0, 0)).0 ≡ rows is_passed results)
      × ((tsv_counts results (0, 0)).1 ≡ rows is_unsupported results)
      × (total_failed results ≡ rows is_failed results)
unfolding total_failed
counts-rows including results h =
    let (is, iu) = tsv_counts-rows results (0, 0) h in
    (
      text_counts-tsv including results (0, 0) h,
      ground (arith, is),
      ground (arith, iu),
      ground (arith, is, iu, rows-total results),
    )
