-- ===== src/Limits.antt =====
-- What a device accepts in one dispatch (src/limits.rs).
pub mod Fitting
mod Tests
use gpu_info_rs.Prelude.{
  ℕ, Bool, true, false, ◌||◌, Option, none, some, ltb, if◌then◌else◌, is_some, mul64,
  saturating_mul, u64_max,
}

pub data TilingReason : Type 0 where
  texture_dimension buffer_binding : TilingReason

pub record GpuLimits : Type 0 where
  pub max_tile_dim : ℕ
  pub max_buffer_bytes : ℕ
  pub total_memory : ℕ
  pub available_memory : ℕ
  pub detected : Bool

abbrev pub u32_max : ℕ
u32_max = 4294967295

unfoldable pub new : ℕ → ℕ → ℕ → ℕ → Bool → GpuLimits
new max_tile_dim max_buffer_bytes total_memory available_memory detected = record {
  max_tile_dim = max_tile_dim;
  max_buffer_bytes = max_buffer_bytes;
  total_memory = total_memory;
  available_memory = available_memory;
  detected = detected;
}

unfoldable pub cpu : ℕ → GpuLimits
unfolding new
cpu available_memory = new u32_max u64_max available_memory available_memory true

unfoldable pub unconstrained : GpuLimits
unfolding new
unconstrained = new u32_max u64_max u64_max u64_max false

-- The two limits of a wgpu adapter that are read.
pub record WgpuLimits : Type 0 where
  pub max_texture_dimension_2d : ℕ
  pub max_storage_buffer_binding_size : ℕ

unfoldable pub from_wgpu_limits : WgpuLimits → ℕ → ℕ → GpuLimits
unfolding new
from_wgpu_limits l total_memory available_memory =
    new l.max_texture_dimension_2d l.max_storage_buffer_binding_size total_memory available_memory
      true

unfoldable pub image_bytes : (width height bytes_per_pixel : ℕ) → ℕ
image_bytes width height bytes_per_pixel = mul64 (mul64 width height) bytes_per_pixel

unfoldable pub tiling_reason_rows : GpuLimits → (width height row_bytes : ℕ) → Option TilingReason
tiling_reason_rows l width height row_bytes =
    if ltb l.max_tile_dim width || ltb l.max_tile_dim height
    then some texture_dimension
    else if ltb l.max_buffer_bytes (saturating_mul row_bytes height)
    then some buffer_binding
    else none

unfoldable pub tiling_reason : GpuLimits → (width height bytes_per_pixel : ℕ) → Option TilingReason
unfolding tiling_reason_rows
tiling_reason l width height bytes_per_pixel =
    tiling_reason_rows l width height (mul64 width bytes_per_pixel)

unfoldable pub needs_tiling : GpuLimits → (width height bytes_per_pixel : ℕ) → Bool
unfolding tiling_reason
needs_tiling l width height bytes_per_pixel = is_some (tiling_reason l width height bytes_per_pixel)
