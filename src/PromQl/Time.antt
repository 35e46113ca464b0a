-- ===== src/PromQl/Time.antt =====
-- Instants and durations of the PromQL tester: nanoseconds since Go's zero time, the instant from
-- which Time.Truncate counts, and signed durations. Instants before it are outside the model.
use native.Mathlib.Nat.{
  le_trans, div-add-mod, div-mul-le_self, le-div_iff_mul-le, mul-le-mul_left, mod-zero,
}
use compliance.Base.{ℕ, zero, suc, ◌+◌, ◌-◌, ◌*◌, ◌%◌, ◌≤◌, Bool, arith, ◌==◌, if◌then◌else◌}
pub use compliance.Base.{ℤ, pos, negsuc}

abbrev pub Instant : Type 0
Instant = ℕ

abbrev pub millisecond : ℕ
millisecond = 1000000

-- `time.Duration(n) * time.Millisecond`.
abbrev pub milliseconds : ℤ → ℤ
milliseconds (pos n) = pos (n * millisecond)
milliseconds (negsuc n) = negsuc (suc n * millisecond - 1)

abbrev pub is_zero : ℤ → Bool
is_zero (pos n) = n == 0
is_zero (negsuc n) = Bool.false

-- Time.Truncate: down to a multiple of the duration, unchanged if that is not positive.
unfoldable pub truncate : Instant → ℤ → Instant
truncate t (pos d) = if d == 0 then t else t - t % d
truncate t (negsuc n) = t

-- Time.Add.
unfoldable pub add : Instant → ℤ → Instant
add t (pos d) = t + d
add t (negsuc n) = t - suc n

truncate_pos_mono : (s t d : ℕ) → s ≤ t → s - s % d ≤ t - t % d
truncate_pos_mono s t zero h = omega (arith, mod-zero s)
truncate_pos_mono s t (suc d) h =
    let quotients =
      (le-div_iff_mul-le {k = suc d} (omega arith)).1 (le_trans (div-mul-le_self s (suc d)) h) in
    omega (arith, div-add-mod s (suc d), div-add-mod t (suc d), mul-le-mul_left (suc d) quotients)

pub truncate_mono : (s t : Instant) (d : ℤ) → s ≤ t → truncate s d ≤ truncate t d
unfolding truncate
truncate_mono s t (pos d) h = ground (arith, truncate_pos_mono s t d)
truncate_mono s t (negsuc n) h = h

pub add_mono : (s t : Instant) (d : ℤ) → s ≤ t → add s d ≤ add t d
unfolding add
add_mono s t (pos d) h = omega arith
add_mono s t (negsuc n) h = omega arith
