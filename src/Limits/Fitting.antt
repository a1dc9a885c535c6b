-- ===== src/Limits/Fitting.antt =====
-- When one dispatch can hold an image (src/limits.rs).
use gpu_info_rs.Prelude.{ℕ, ◌*◌, ◌≤◌, ◌<◌, ◌≡◌, ◌⊎◌, ◌↔◌, false, none, some, arith, u64_max, mul64}
use gpu_info_rs.Limits.{
  GpuLimits, texture_dimension, buffer_binding, tiling_reason_rows, tiling_reason, needs_tiling,
}

-- For limits that are `u64`, one dispatch holds the rows exactly when both dimensions are within the
-- texture limit and the true byte count is within the binding limit; a refusal names the dimensions
-- first. No product wraps.
pub tiling_reason_rows_iff :
    (l : GpuLimits) (width height row_bytes : ℕ)
    → l.max_buffer_bytes < u64_max
    → let reason = tiling_reason_rows l width height row_bytes in
      (reason ≡ none)
        × (width ≤ l.max_tile_dim)
        × (height ≤ l.max_tile_dim)
        × (row_bytes * height ≤ l.max_buffer_bytes)
      ⊎ (reason ≡ some texture_dimension) × ((l.max_tile_dim < width) ⊎ (l.max_tile_dim < height))
      ⊎ (reason ≡ some buffer_binding)
        × (width ≤ l.max_tile_dim)
        × (height ≤ l.max_tile_dim)
        × (l.max_buffer_bytes < row_bytes * height)
unfolding tiling_reason_rows
tiling_reason_rows_iff l width height row_bytes h = ground arith

-- Where a row is a `u64` and the binding limit is below the largest `u64`, an image needs no
-- tiling exactly when both dimensions are within the texture limit and all its bytes are within
-- the binding limit.
pub needs_tiling_iff :
    (l : GpuLimits) (width height bytes_per_pixel : ℕ)
    → l.max_buffer_bytes < u64_max
    → width * bytes_per_pixel ≤ u64_max
    → (needs_tiling l width height bytes_per_pixel ≡ false) ↔ (
        (width ≤ l.max_tile_dim)
        × (height ≤ l.max_tile_dim)
        × (width * bytes_per_pixel * height ≤ l.max_buffer_bytes))
unfolding needs_tiling tiling_reason tiling_reason_rows
needs_tiling_iff l width height bytes_per_pixel h k =
    let row : mul64 width bytes_per_pixel ≡ width * bytes_per_pixel = ground arith in
    rw row (ground (arith, tiling_reason_rows_iff l width height (width * bytes_per_pixel) h))
