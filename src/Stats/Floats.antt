-- ===== src/Stats/Floats.antt =====
-- The numbers of src/stats.rs that may have a fraction: `f32` readings and `f64` counters, with the
-- operations that it uses of them.
use gpu_info_rs.Prelude.{ℕ, Bool}

pub record Float : Type 1 where
  -- `f32`, a conversion to it, and `clamp(0.0, 1.0)`, `clamp(0.0, 100.0)`, `/ 1000.0`.
  pub F : Type 0
  pub of : ℕ → F
  pub divide : F → F → F
  pub is_positive : F → Bool
  pub clamp_unit : F → F
  pub clamp_percent : F → F
  pub thousandth : F → F
  -- `f64` with its sums, and the ends of the two conversions.
  pub Double : Type 0
  pub zero_double : Double
  pub plus : Double → Double → Double
  pub maximum : Double → Double → Double
  pub is_finite : Double → Bool
  pub to_percent : Double → F
  pub to_bytes : Double → ℕ
