-- ===== src/PromQl/Config.antt =====
-- promql/config/config.go: the parts of the configuration that shape the test cases and the
-- comparison. `F` is the type of a float.
use compliance.Base.{String, Bool, List, Option}
use compliance.PromQl.Time.{ℤ}

pub record AdjustValueTolerance (F : Type 0) : Type 0 where
  pub fraction : Option F
  pub margin : Option F

pub record QueryTweak (F : Type 0) : Type 0 where
  pub note : String
  pub no_bug : Bool
  pub truncate_timestamps_to_ms : ℤ
  pub align_timestamps_to_step : Bool
  pub offset_timestamps_by_ms : ℤ
  pub drop_result_labels : List String
  pub ignore_first_step : Bool
  pub ignore_case : Bool
  pub adjust_value_tolerance : Option (AdjustValueTolerance F)

-- config.TestCase, a query pattern.
pub record Pattern : Type 0 where
  pub query : String
  pub variant_args : List String
  pub skip_comparison : Bool
  pub should_fail : Bool
