-- ===== src/AlertGenerator/Cases/Samples.antt =====
-- alert_generator/cases/utils.go: sampleSlice and betweenFunc. A value notation is taken in its
-- parsed form; the values are of any type with a zero and a sum. Instants are milliseconds.
pub mod Length
use compliance.Base.{ℕ, zero, suc, ◌+◌, ◌*◌, Bool, ◌&&◌, List, [], ◌∷◌, ltb, leb}

-- "V" and "AxB".
pub data Notation (V : Type 0) : Type 0 where
  absolute : V → Notation V
  repeated : V → ℕ → Notation V

-- prompb.Sample.
pub record ProtoSample (V : Type 0) : Type 0 where
  pub timestamp : ℕ
  pub value : V

-- The variables of the loop: the next instant and the last value.
pub record Cursor (V : Type 0) : Type 0 where
  pub ts : ℕ
  pub val : V

module _ {V : Type 0} (plus : V → V → V) (interval : ℕ) where
  -- The inner loop, `b` times; `rest` goes on from where it ends.
  unfoldable pub repeat_samples :
      (Cursor V → List (ProtoSample V)) → V → ℕ → Cursor V → List (ProtoSample V)
  repeat_samples rest a zero c = rest c
  repeat_samples rest a (suc b) c =
      record { timestamp = c.ts; value = plus c.val a }
      ∷ repeat_samples rest a b (record { ts = c.ts + interval; val = plus c.val a })

  -- sampleSlice, from a given instant and value.
  unfoldable pub samples_from : List (Notation V) → Cursor V → List (ProtoSample V)
  unfolding repeat_samples
  samples_from [] c = []
  samples_from (absolute v ∷ values) c =
      record { timestamp = c.ts; value = v }
      ∷ samples_from values (record { ts = c.ts + interval; val = v })
  samples_from (repeated a b ∷ values) c = repeat_samples (samples_from values) a b c

  -- sampleSlice.
  unfoldable pub sample_slice : V → List (Notation V) → List (ProtoSample V)
  unfolding samples_from
  sample_slice zero_value values = samples_from values (record { ts = 0; val = zero_value })

-- The function of betweenFunc, on a start and an end in whole seconds: the interval is open at the
-- start and ends two request times of 5 seconds after the end.
unfoldable pub between : ℕ → ℕ → ℕ → Bool
between ts start end = ltb (1000 * start) ts && leb ts (1000 * (end + 10))
