-- ===== src/AlertGenerator/Cases/Samples/Length.antt =====
-- What sampleSlice returns, as a whole.
use compliance.Base.{ℕ, zero, suc, ◌+◌, ◌≡◌, refl, List, [], ◌∷◌, length, arith}
use compliance.AlertGenerator.Cases.Samples.{
  Notation, absolute, repeated, ProtoSample, Cursor, repeat_samples, samples_from, sample_slice,
}

abbrev sample_count : {V : Type 0} → List (Notation V) → ℕ
sample_count [] = 0
sample_count (absolute v ∷ values) = suc (sample_count values)
sample_count (repeated a b ∷ values) = b + sample_count values

-- Each sample comes an interval after the one before it.
abbrev Spaced : {V : Type 0} → ℕ → ℕ → List (ProtoSample V) → Type 0
Spaced interval ts [] = Unit {0}
Spaced interval ts (s ∷ rest) = (s.timestamp ≡ ts) × Spaced interval (ts + interval) rest

module _ {V : Type 0} (plus : V → V → V) (interval : ℕ) where
  repeat_samples-Spaced :
      (rest : Cursor V → List (ProtoSample V)) (n : ℕ)
      → ((c : Cursor V) → (length (rest c) ≡ n) × Spaced interval c.ts (rest c))
      → (a : V) (b : ℕ) (c : Cursor V)
      → (length (repeat_samples plus interval rest a b c) ≡ b + n)
        × Spaced interval c.ts (repeat_samples plus interval rest a b c)
  unfolding repeat_samples
  repeat_samples-Spaced rest n h a zero c = (omega (arith, (h c).0), (h c).1)
  repeat_samples-Spaced rest n h a (suc b) c =
      let more =
        repeat_samples-Spaced rest n h a b (record { ts = c.ts + interval; val = plus c.val a }) in
      (omega (arith, more.0), (refl, more.1))

  samples_from-Spaced :
      (values : List (Notation V)) (c : Cursor V)
      → (length (samples_from plus interval values c) ≡ sample_count values)
        × Spaced interval c.ts (samples_from plus interval values c)
  unfolding samples_from
  samples_from-Spaced [] c = (refl, tt)
  samples_from-Spaced (absolute v ∷ values) c =
      let more = samples_from-Spaced values (record { ts = c.ts + interval; val = v }) in
      (omega (arith, more.0), (refl, more.1))
  samples_from-Spaced (repeated a b ∷ values) c =
      repeat_samples-Spaced (samples_from plus interval values) (sample_count values)
        (samples_from-Spaced values) a b c

  -- sampleSlice returns one sample for each absolute value and B samples for each "AxB"; the first
  -- has timestamp 0 and each further one comes an interval later.
  sample_slice-Spaced :
      (zero_value : V) (values : List (Notation V))
      → (length (sample_slice plus interval zero_value values) ≡ sample_count values)
        × Spaced interval 0 (sample_slice plus interval zero_value values)
  unfolding sample_slice
  sample_slice-Spaced zero_value values =
      samples_from-Spaced values (record { ts = 0; val = zero_value })
