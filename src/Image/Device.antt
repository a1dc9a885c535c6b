-- ===== src/Image/Device.antt =====
-- What src/image.rs calls: the conversions of `half`, the casts of `bytemuck`, the texture calls of
-- wgpu on a memory `State`, and the documented behaviour of these that the theorems rely on.
use gpu_info_rs.Prelude.{
  ℕ, ◌+◌, ◌*◌, ◌%◌, ◌≤◌, ◌<◌, ◌≡◌, Option, none, some, List, ◌++◌, length, take, drop, leb,
  if◌then◌else◌,
}

pub record Half : Type 1 where
  pub F32 : Type 0
  pub F16 : Type 0
  pub Byte : Type 0
  pub zero_f32 : F32
  pub from_f32 : F32 → F16
  pub to_f32 : F16 → F32
  -- `bytemuck::cast_slice`, both ways.
  pub bytes : List F16 → List Byte
  pub halfs : List Byte → List F16

-- A cast of `f16` to bytes writes two bytes for each, one after another, and the cast back reads them.
pub record Casts (h : Half) : Type 0 where
  pub length-bytes : (xs : List h.F16) → length (h.bytes xs) ≡ 2 * length xs
  pub bytes-append : (xs ys : List h.F16) → h.bytes (xs ++ ys) ≡ h.bytes xs ++ h.bytes ys
  pub halfs-bytes : (xs : List h.F16) → h.halfs (h.bytes xs) ≡ xs

-- The layout of a texture's rows in a buffer: `width` and `height` are those of the copied extent.
pub record Layout : Type 0 where
  pub bytes_per_row : ℕ
  pub rows_per_image : ℕ
  pub width : ℕ
  pub height : ℕ

-- wgpu on the shared device. `submit` makes what is staged take effect; `copied` is the content of a
-- buffer of the size given first, after a copy of the texture into it with the layout.
pub record Gpu (h : Half) : Type 1 where
  pub State : Type 0
  pub Texture : Type 0
  pub max_texture_dimension_2d : ℕ
  pub create_texture : ℕ → ℕ → State → Texture × State
  pub write_texture : Texture → List h.Byte → Layout → State → State
  pub submit : State → State
  pub copied : ℕ → Texture → Layout → State → List h.Byte
  -- The texels of a row of a texture, as bytes.
  pub row : State → Texture → ℕ → List h.Byte

-- `&data[start..start + len]`; `none` is the panic out of bounds.
abbrev pub slice {ℓ} : {A : Type ℓ} → ℕ → ℕ → List A → Option (List A)
slice start len xs = if leb (start + len) (length xs) then some (take len (drop start xs)) else none

module _ (h : Half) (g : Gpu h) where
  -- After `write_texture` of data that holds all rows of the layout, and a submission, row `y` of the
  -- texture is what stands at `y * bytes_per_row`, 8 bytes for each texel.
  abbrev pub Writes : g.Texture → List h.Byte → Layout → g.State → Type 0
  Writes tex content l s =
      l.width * 8 ≤ l.bytes_per_row
      → l.height ≤ l.rows_per_image
      → l.bytes_per_row * l.height ≤ length content
      → (y : ℕ) → y < l.height
      → slice (y * l.bytes_per_row) (l.width * 8) content
        ≡ some (g.row (g.submit (g.write_texture tex content l s)) tex y)

  -- A copy with rows that are long enough and aligned to 256 bytes, into a buffer that holds them all,
  -- puts row `y` of the texture at `y * bytes_per_row`.
  abbrev pub Copies : g.Texture → ℕ → Layout → g.State → Type 0
  Copies tex size l s =
      l.bytes_per_row % 256 ≡ 0
      → l.width * 8 ≤ l.bytes_per_row
      → l.height ≤ l.rows_per_image
      → l.bytes_per_row * l.height ≤ size
      → (y : ℕ) → y < l.height
      → slice (y * l.bytes_per_row) (l.width * 8) (g.copied size tex l s) ≡ some (g.row s tex y)
