-- ===== src/Image/Error.antt =====
-- `GpuImageError`, `validate_dims` and the errors of the readback's map (src/image.rs).
use gpu_info_rs.Prelude.{ℕ, Bool, ◌||◌, Result, ok, err, ltb, ◌==◌, if◌then◌else◌}
use gpu_info_rs.Wait.Error.{WaitError}

-- The texts of `Map` and `Poll` are left out.
pub data GpuImageError : Type 0 where
  no_device zero_size : GpuImageError
  too_large : (width height max : ℕ) → GpuImageError
  pixel_count : (expected got : ℕ) → GpuImageError
  map poll : GpuImageError

unfoldable pub validate_dims : (width height max : ℕ) → Result (Unit {0}) GpuImageError
validate_dims width height max =
    if width == 0 || height == 0
    then err zero_size
    else if ltb max width || ltb max height
    then err (too_large width height max)
    else ok tt

-- How the map of the staging buffer goes: what `map_read` gives, and whether the range can be read.
pub record Mapping : Type 0 where
  pub map_read : Result (Unit {0}) WaitError
  pub range : Bool

abbrev pub map_error : WaitError → GpuImageError
map_error (WaitError.poll e) = poll
map_error _ = GpuImageError.map
