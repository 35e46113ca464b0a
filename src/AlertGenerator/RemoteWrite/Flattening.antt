-- ===== src/AlertGenerator/RemoteWrite/Flattening.antt =====
-- alert_generator/remote_write.go: AddTimeSeries, and the flattening and sorting of Start.
use mathlib.Core.List.{Perm}
use compliance.Base.{
  ℕ, ◌+◌, ◌≡◌, arith, List, [], ◌∷◌, ◌++◌, map, append-nil, append_assoc, sort_slice-perm,
}
use compliance.AlertGenerator.Cases.Samples.{ProtoSample}
use compliance.AlertGenerator.RemoteWrite.{
  TimeSeries, LabelledSample, Queue, flatten_samples, flatten, all_samples,
}

-- A sample of a series, moved to the time of Start.
abbrev shifted : {L V : Type 0} → ℕ → L → ProtoSample V → LabelledSample L V
shifted now labels s = record {
  labels = labels;
  s = record { timestamp = s.timestamp + now; value = s.value };
}

-- The samples of the series, one series after the other.
abbrev pub shifted_series : {L V : Type 0} → ℕ → List (TimeSeries L V) → List (LabelledSample L V)
shifted_series now [] = []
shifted_series now (ts ∷ rest) = map (shifted now ts.labels) ts.samples ++ shifted_series now rest

module _ {L V : Type 0} (now : ℕ) where
  flatten_samples-map :
      (labels : L) (samples : List (ProtoSample V)) (all : List (LabelledSample L V))
      → flatten_samples now labels samples all ≡ all ++ map (shifted now labels) samples
  unfolding flatten_samples
  flatten_samples-map labels [] all = grind (arith, append-nil)
  flatten_samples-map labels (s ∷ samples) all =
      grind (arith, append_assoc, flatten_samples-map labels samples)

  flatten-shifted :
      (series : List (TimeSeries L V)) (all : List (LabelledSample L V))
      → flatten now series all ≡ all ++ shifted_series now series
  unfolding flatten
  flatten-shifted [] all = grind (arith, append-nil)
  flatten-shifted (ts ∷ rest) all =
      grind
        (arith, append_assoc, flatten_samples-map ts.labels ts.samples all, flatten-shifted rest)

  pub all_samples-perm :
      (q : Queue L V) → Perm (all_samples now q) (shifted_series now q.time_series)
  unfolding all_samples
  all_samples-perm q = rw (← flatten-shifted q.time_series []) (sort_slice-perm _ _)
