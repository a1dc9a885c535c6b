-- ===== src/Resources/Wgpu.antt =====
-- What src/resources.rs uses of wgpu: flags, formats, extents and limits. A client takes it as a
-- parameter.
use gpu_info_rs.Prelude.{ℕ, Bool, Option}

pub record Extent : Type 0 where
  pub width : ℕ
  pub height : ℕ
  pub depth_or_array_layers : ℕ

pub data Dimension : Type 0 where
  d1 d2 d3 : Dimension

pub record Limits : Type 0 where
  pub max_buffer_size : ℕ
  pub max_texture_dimension_1d : ℕ
  pub max_texture_dimension_2d : ℕ
  pub max_texture_dimension_3d : ℕ
  pub max_texture_array_layers : ℕ

pub record Wgpu : Type 1 where
  pub BufferUsages : Type 0
  -- No flag is set; no bit is set but those of flags.
  pub is_empty : BufferUsages → Bool
  pub is_known : BufferUsages → Bool
  pub has_map_write : BufferUsages → Bool
  pub has_map_read : BufferUsages → Bool
  -- Equal to `MAP_WRITE | COPY_SRC`, and to `MAP_READ | COPY_DST`.
  pub is_write_staging : BufferUsages → Bool
  pub is_read_staging : BufferUsages → Bool
  pub TextureUsages : Type 0
  pub is_empty_texture : TextureUsages → Bool
  pub is_known_texture : TextureUsages → Bool
  pub TextureFormat : Type 0
  pub format_eq : TextureFormat → TextureFormat → Bool
  pub remove_srgb_suffix : TextureFormat → TextureFormat
  pub block_copy_size : TextureFormat → Option ℕ
  pub block_dimensions : TextureFormat → ℕ × ℕ
  pub max_mips : Extent → Dimension → ℕ
  pub mip_level_size : Extent → ℕ → Dimension → Extent
  pub copy_buffer_alignment : ℕ
  pub map_alignment : ℕ
