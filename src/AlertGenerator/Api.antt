-- ===== src/AlertGenerator/Api.antt =====
-- What the alert generator suite takes from other packages: the label sets and alerts of
-- Prometheus. A label set is abstract; `labels.Compare`, `Labels.String`, `Labels.Get` and the test
-- whether `url.Parse` succeeds are operations of an interface.
use Prim.Native.Nat.{Ordering}
use compliance.Base.{ℕ, ◌*◌, ◌≡◌, ◌↔◌, Bool, true, false, String}

-- An instant: nanoseconds since Go's zero time, so that `time.Time{}` is 0.
abbrev pub Time : Type 0
Time = ℕ

-- A duration in nanoseconds. The suite's own durations are not negative.
abbrev pub Duration : Type 0
Duration = ℕ

abbrev pub second : Duration
second = 1000000000

abbrev pub minute : Duration
minute = 60 * second

pub record AlertApi (L : Type 0) : Type 0 where
  pub compare_labels : L → L → Ordering
  pub labels_string : L → String
  pub get_label : L → String → String
  pub url_parses : String → Bool

-- `labels.Compare(a, b) == 0`.
abbrev pub is_eq : Ordering → Bool
is_eq Ordering.eq = true
is_eq _ = false

-- `labels.Compare` answers 0 for equal label sets only, as its documentation says.
abbrev pub ComparesEqual : {L : Type 0} → AlertApi L → Type 0
ComparesEqual {L} api = (a b : L) → (is_eq (api.compare_labels a b) ≡ true) ↔ (a ≡ b)

-- notifier.Alert.
pub record Alert (L : Type 0) : Type 0 where
  pub labels : L
  pub annotations : L
  pub starts_at : Time
  pub ends_at : Time
  pub generator_url : String
