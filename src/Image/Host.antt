-- ===== src/Image/Host.antt =====
-- `GpuImage` (src/image.rs): its allocation and both sides of the host boundary. `shared` is what
-- `shared_device()` gives.
use gpu_info_rs.Prelude.{
  ℕ, zero, suc, ◌+◌, ◌*◌, ◌/◌, ◌%◌, ◌^◌, Bool, Option, some, List, [], ◌∷◌, ◌++◌, map, Result, ok,
  err, ◌==◌, if◌then◌else◌, length, take, drop, mul64, and_some,
}
use gpu_info_rs.Image.Device.{Half, Gpu, Layout, slice}
use gpu_info_rs.Image.Error.{
  GpuImageError, no_device, pixel_count, validate_dims, Mapping, map_error,
}

pub record GpuImage (T : Type 0) : Type 0 where
  pub tex : T
  pub width : ℕ
  pub height : ℕ

abbrev pub bytes_per_pixel : ℕ
bytes_per_pixel = 8

abbrev pub copy_bytes_per_row_alignment : ℕ
copy_bytes_per_row_alignment = 256

-- `a * b` on `u32`, which wraps around.
abbrev pub mul32 : ℕ → ℕ → ℕ
mul32 a b = (a * b) % 2 ^ 32

-- `a.div_ceil(b)` on `u32`.
abbrev pub div_ceil : ℕ → ℕ → ℕ
div_ceil a b = if a % b == 0 then a / b else a / b + 1

unfoldable pub padded : ℕ → ℕ
padded width =
    mul32 (div_ceil (mul32 width bytes_per_pixel) copy_bytes_per_row_alignment)
      copy_bytes_per_row_alignment

-- `width as usize * height as usize * 4`.
abbrev pub expected_floats : (width height : ℕ) → ℕ
expected_floats width height = mul64 (mul64 width height) 4

-- A slice written from the front by the elements of another, until either ends.
abbrev pub fill {ℓ} : {A : Type ℓ} → ℕ → List A → List A → List A
fill zero src dst = dst
fill (suc n) [] dst = dst
fill (suc n) (x ∷ src) [] = []
fill (suc n) (x ∷ src) (d ∷ dst) = x ∷ fill n src dst

-- `out[start..start + len]` written by `src`.
abbrev pub overwrite {ℓ} : {A : Type ℓ} → ℕ → ℕ → List A → List A → List A
overwrite start len src out = take start out ++ fill len src (drop start out)

-- `vec![x; n]`.
abbrev pub replicate {ℓ} : {A : Type ℓ} → ℕ → A → List A
replicate zero x = []
replicate (suc n) x = x ∷ replicate n x

module _ (h : Half) (g : Gpu h) where
  abbrev pub made :
      ℕ → ℕ → g.Texture × g.State → Result (GpuImage g.Texture) GpuImageError × g.State
  made width height (tex, s) = (ok (record { tex = tex; width = width; height = height }), s)

  -- `GpuImage::new`; `shared` tells whether there is a shared device.
  unfoldable pub new : Bool → ℕ → ℕ → g.State → Result (GpuImage g.Texture) GpuImageError × g.State
  new shared width height s =
      if shared
      then elim (validate_dims width height g.max_texture_dimension_2d) [
        | err e ↦ (err e, s)
        | ok u ↦ made width height (g.create_texture width height s)
      ]
      else (err no_device, s)

  unfoldable pub adopt : g.Texture → ℕ → ℕ → GpuImage g.Texture
  adopt tex width height = record { tex = tex; width = width; height = height }

  -- The layout of the host's rows, without padding.
  abbrev pub tight : ℕ → ℕ → Layout
  tight width height = record {
    bytes_per_row = mul32 width bytes_per_pixel;
    rows_per_image = height;
    width = width;
    height = height;
  }

  unfoldable pub write_rgba_f32 :
      Bool → GpuImage g.Texture → List h.F32 → g.State → Result (Unit {0}) GpuImageError × g.State
  write_rgba_f32 shared img rgba s =
      let expected = expected_floats img.width img.height in
      let bytes = h.bytes (map h.from_f32 rgba) in
      if shared
      then if length rgba == expected
        then (ok tt, g.submit (g.write_texture img.tex bytes (tight img.width img.height) s))
        else (err (pixel_count expected (length rgba)), s)
      else (err no_device, s)

  abbrev pub written_image :
      GpuImage g.Texture
      → Result (Unit {0}) GpuImageError × g.State
      → Result (GpuImage g.Texture) GpuImageError × g.State
  written_image img (ok u, s) = (ok img, s)
  written_image img (err e, s) = (err e, s)

  -- `image.write_rgba_f32(rgba)?` and the image, after `GpuImage::new`.
  abbrev pub after_new :
      Bool
      → List h.F32
      → Result (GpuImage g.Texture) GpuImageError × g.State
      → Result (GpuImage g.Texture) GpuImageError × g.State
  after_new shared rgba (ok img, s) = written_image img (write_rgba_f32 shared img rgba s)
  after_new shared rgba (err e, s) = (err e, s)

  unfoldable pub upload_rgba_f32 :
      Bool → ℕ → ℕ → List h.F32 → g.State → Result (GpuImage g.Texture) GpuImageError × g.State
  upload_rgba_f32 shared width height rgba s = after_new shared rgba (new shared width height s)

  -- The loop over the rows that are left from row `y` on; `none` is a panic out of bounds.
  unfoldable pub unpad :
      (row_bytes unpadded row_floats : ℕ)
      → List h.Byte
      → (left y : ℕ) → List h.F32
      → Option (List h.F32)
  unpad row_bytes unpadded row_floats content zero y out = some out
  unpad row_bytes unpadded row_floats content (suc left) y out =
      and_some (slice (y * row_bytes) unpadded content) (λ row.
        unpad row_bytes unpadded row_floats content left (suc y)
          (overwrite (y * row_floats) row_floats (map h.to_f32 (h.halfs row)) out))

  abbrev pub padded_layout : ℕ → ℕ → Layout
  padded_layout width height = record {
    bytes_per_row = padded width;
    rows_per_image = height;
    width = width;
    height = height;
  }

  -- The floats of the buffer that the copy fills.
  unfoldable pub unpacked : GpuImage g.Texture → g.State → Option (List h.F32)
  unpacked img s =
      let content =
        g.copied (mul64 (padded img.width) img.height) img.tex (padded_layout img.width img.height)
          s in
      let row_floats = mul64 img.width 4 in
      unpad (padded img.width) (mul32 img.width bytes_per_pixel) row_floats content img.height 0
        (replicate (mul64 row_floats img.height) h.zero_f32)

  -- `read_rgba_f32`; an outer `none` is a panic. The copy is submitted before the buffer is mapped.
  unfoldable pub read_rgba_f32 :
      Bool → Mapping → GpuImage g.Texture → g.State → Option (Result (List h.F32) GpuImageError)
  read_rgba_f32 shared m img s =
      if shared
      then elim m.map_read [
        | err e ↦ some (err (map_error e))
        | ok u ↦
            if m.range
            then and_some (unpacked img s) (λ out. some (ok out))
            else some (err GpuImageError.map)
      ]
      else some (err no_device)
