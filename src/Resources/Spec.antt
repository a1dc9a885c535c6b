-- ===== src/Resources/Spec.antt =====
-- Descriptors and their logical bytes (src/resources.rs). `is_multiple_of` and `div_ceil` are Rust's on
-- unsigned integers; a zero divisor of `div_ceil`, a panic in Rust, gives no level size.
use Prim.Native.String.{String}
use gpu_info_rs.Prelude.{
  ℕ, zero, suc, ◌+◌, ◌/◌, ◌%◌, Bool, true, false, not, ◌&&◌, ◌||◌, Option, none, some, Result, ok,
  err, ◌>>=◌, ok_or, ltb, leb, ◌==◌, if◌then◌else◌, checked_add, checked_mul,
}
use gpu_info_rs.Admission.{AdmissionError}
use gpu_info_rs.Wait.Error.{WaitError}
use gpu_info_rs.Resources.Wgpu.{Wgpu, Limits, Extent, Dimension, d1, d2, d3}

abbrev pub is_multiple_of : ℕ → ℕ → Bool
is_multiple_of a b = if b == 0 then a == 0 else a % b == 0

abbrev pub div_ceil : ℕ → ℕ → ℕ
div_ceil a b = if a % b == 0 then a / b else a / b + 1

abbrev pub and_then {ℓ κ} : {A : Type ℓ} {B : Type κ} → Option A → (A → Option B) → Option B
and_then none f = none
and_then (some a) f = f a

module _ (w : Wgpu) where
  -- The errors of descriptors, admission and operations.
  pub data ResourceError : Type 0 where
    admission : AdmissionError → ResourceError
    invalid_descriptor : String → ResourceError
    unsupported_format : w.TextureFormat → ResourceError
    overflow : ResourceError
    gpu : WaitError → ResourceError
    host_allocation : ResourceError
    slot : ResourceError
    upload_state : ResourceError

  pub record BufferSpec : Type 0 where
    pub size : ℕ
    pub usage : w.BufferUsages

  pub record TextureSpec : Type 0 where
    pub size : Extent
    pub dimension : Dimension
    pub mip_level_count : ℕ
    pub sample_count : ℕ
    pub format : w.TextureFormat
    pub usage : w.TextureUsages
    pub view_format : Option w.TextureFormat

  pub data Spec : Type 0 where
    buffer : BufferSpec → Spec
    texture : TextureSpec → Spec

  abbrev pub staging : BufferSpec → Bool
  staging s = w.is_write_staging s.usage

  abbrev bad_buffer : BufferSpec → Limits → Bool
  bad_buffer s limits =
      s.size == 0
      || ltb limits.max_buffer_size s.size
      || not (is_multiple_of s.size w.copy_buffer_alignment)
      || w.is_empty s.usage
      || not (w.is_known s.usage)

  unfoldable pub buffer_bytes : BufferSpec → Limits → Result ℕ ResourceError
  buffer_bytes s limits =
      if bad_buffer s limits
      then err (invalid_descriptor "buffer size/usage")
      else if w.has_map_write s.usage && not (staging s)
      then err (invalid_descriptor "MAP_WRITE requires COPY_SRC staging")
      else if w.has_map_read s.usage && not (w.is_read_staging s.usage)
      then err (invalid_descriptor "MAP_READ requires COPY_DST")
      else if staging s && not (is_multiple_of s.size w.map_alignment)
      then err (invalid_descriptor "staging map alignment")
      else ok s.size

  abbrev bad_samples : ℕ → Bool
  bad_samples n = not (n == 1 || n == 2 || n == 4 || n == 8 || n == 16)

  abbrev pub bad_texture : TextureSpec → Bool
  bad_texture s =
      s.size.width == 0
      || s.size.height == 0
      || s.size.depth_or_array_layers == 0
      || w.is_empty_texture s.usage
      || not (w.is_known_texture s.usage)
      || s.mip_level_count == 0
      || ltb (w.max_mips s.size s.dimension) s.mip_level_count
      || bad_samples s.sample_count

  abbrev extent_ok : Dimension → Extent → ℕ → Limits → Bool
  extent_ok d1 size samples limits =
      leb size.width limits.max_texture_dimension_1d
      && size.height == 1
      && size.depth_or_array_layers == 1
      && samples == 1
  extent_ok d2 size samples limits =
      leb size.width limits.max_texture_dimension_2d
      && leb size.height limits.max_texture_dimension_2d
      && leb size.depth_or_array_layers limits.max_texture_array_layers
  extent_ok d3 size samples limits =
      leb size.width limits.max_texture_dimension_3d
      && leb size.height limits.max_texture_dimension_3d
      && leb size.depth_or_array_layers limits.max_texture_dimension_3d
      && samples == 1

  abbrev pub bad_extent : TextureSpec → Limits → Bool
  bad_extent s limits =
      not (extent_ok s.dimension s.size s.sample_count limits)
      || (ltb 1 s.sample_count
          && (not (s.mip_level_count == 1) || not (s.size.depth_or_array_layers == 1)))

  abbrev pub bad_view : Option w.TextureFormat → w.TextureFormat → Bool
  bad_view none format = false
  bad_view (some view) format =
      not (w.format_eq (w.remove_srgb_suffix view) (w.remove_srgb_suffix format))

  -- The bytes of one mip level.
  abbrev pub level_bytes : TextureSpec → (block bw bh : ℕ) → Extent → Option ℕ
  level_bytes s block bw bh mip =
      and_then
        (and_then
          (and_then (checked_mul (div_ceil mip.width bw) (div_ceil mip.height bh))
            (λ n. checked_mul n mip.depth_or_array_layers))
          (λ n. checked_mul n s.sample_count))
        (λ n. checked_mul n block)

  abbrev pub plus_level : Option ℕ → ℕ → (ℕ → Result ℕ ResourceError) → Result ℕ ResourceError
  plus_level none bytes next = err overflow
  plus_level (some n) bytes next = ok_or (checked_add bytes n) overflow >>= next

  -- The loop over the levels that are left.
  unfoldable pub sum_levels :
      TextureSpec → (block bw bh : ℕ) → (left level bytes : ℕ) → Result ℕ ResourceError
  sum_levels s block bw bh zero level bytes = ok bytes
  sum_levels s block bw bh (suc left) level bytes =
      plus_level (level_bytes s block bw bh (w.mip_level_size s.size level s.dimension)) bytes
        (λ n. sum_levels s block bw bh left (suc level) n)

  abbrev pub aligned_bytes : TextureSpec → (block bw bh : ℕ) → Result ℕ ResourceError
  aligned_bytes s block bw bh =
      if not (is_multiple_of s.size.width bw) || not (is_multiple_of s.size.height bh)
      then err (invalid_descriptor "compressed texture block alignment")
      else sum_levels s block bw bh s.mip_level_count 0 0

  unfoldable pub texture_bytes : TextureSpec → Limits → Result ℕ ResourceError
  texture_bytes s limits =
      if bad_texture s
      then err (invalid_descriptor "texture extent/mips/samples/usage")
      else if bad_extent s limits
      then err (invalid_descriptor "texture dimensions exceed enabled limits")
      else if bad_view s.view_format s.format
      then err (invalid_descriptor "incompatible texture view format")
      else (ok_or (w.block_copy_size s.format) (unsupported_format s.format) >>= λ block.
          let (bw, bh) = w.block_dimensions s.format in aligned_bytes s block bw bh)

  unfoldable pub bytes : Spec → Limits → Result ℕ ResourceError
  bytes (buffer s) limits = buffer_bytes s limits
  bytes (texture s) limits = texture_bytes s limits

  abbrev without_same : w.TextureFormat → Option w.TextureFormat → Option w.TextureFormat
  without_same format none = none
  without_same format (some view) = if w.format_eq view format then none else some view

  -- `Spec::normalized`: a view in the texture's own format says nothing.
  unfoldable pub normalized : Spec → Spec
  normalized (buffer s) = buffer s
  normalized (texture s) = texture (record s { view_format = without_same s.format s.view_format })

  -- Read-back buffers are never reused.
  unfoldable pub reusable : Spec → Bool
  reusable (buffer s) = not (w.has_map_read s.usage)
  reusable (texture s) = true
