-- ===== src/Image/Readback.antt =====
-- What is written to an image (src/image.rs) is what is read.
use gpu_info_rs.Prelude.{
  ℕ, zero, suc, ◌+◌, ◌*◌, ◌%◌, ◌^◌, ◌≤◌, ◌<◌, ◌≡◌, refl, sym, ap, ◌∙◌, true, some, List, [], ◌∷◌,
  ◌++◌, map, ok, err, arith, length, ◌==◌, mul64, Option, false, Result, Result-cases, Bool-cases,
  ◌⊎◌, inl, inr, ◌≢◌,
}
use gpu_info_rs.Image.Device.{Half, Casts, Gpu, Writes, Copies, slice}
use gpu_info_rs.Wait.Error.{PollError, WaitError}
use gpu_info_rs.Image.Error.{GpuImageError, Mapping, map_error}
use gpu_info_rs.Image.Host.{
  GpuImage, mul32, div_ceil, padded, expected_floats, tight, padded_layout, write_rgba_f32,
  unpacked, read_rgba_f32,
}
use gpu_info_rs.Image.Rows.{length-map, slice-append, Rows, unpad-rest}

-- The rows of an image whose width does not wrap around, as numbers without `u32`.
padded_eq : (width : ℕ) → width * 8 + 255 < 2 ^ 32 → padded width ≡ div_ceil (width * 8) 256 * 256
unfolding padded
padded_eq width h =
    let fits : mul32 width 8 ≡ width * 8 = omega arith in
    let small : div_ceil (width * 8) 256 * 256 < 2 ^ 32 = ground arith in
    let whole : mul32 (div_ceil (width * 8) 256) 256 ≡ div_ceil (width * 8) 256 * 256 =
      omega arith in
    rw (fits, whole)

-- The staging rows of an image whose padded row fits `u32` are aligned to 256 bytes, hold a row of
-- texels, and have less than 256 bytes of padding.
pub padded_bounds :
    (width : ℕ)
    → width * 8 + 255 < 2 ^ 32
    → (padded width % 256 ≡ 0) × (width * 8 ≤ padded width) × (padded width < width * 8 + 256)
padded_bounds width h =
    let e = padded_eq width h in
    let aligned : (div_ceil (width * 8) 256 * 256) % 256 ≡ 0 = omega arith in
    let holds : width * 8 ≤ div_ceil (width * 8) 256 * 256 = ground arith in
    let close : div_ceil (width * 8) 256 * 256 < width * 8 + 256 = ground arith in
    (rw (e, aligned), rw (e) holds, rw (e) close)

product_le : (a b c d : ℕ) → a ≤ c → b ≤ d → a * b ≤ c * d
product_le zero b c d h k = omega arith
product_le (suc a) b zero d h k = absurd (omega arith)
product_le (suc a) b (suc c) d h k = omega (arith, product_le a b c d (omega arith) k)

map-map :
    {A B C : Type 0} (f : A → B) (k : B → C) (xs : List A)
    → map k (map f xs) ≡ map (λ x. k (f x)) xs
map-map f k [] = refl
map-map f k (x ∷ xs) = ap (λ ys. k (f x) ∷ ys) (map-map f k xs)

-- What a read gives whose floats are these: them, or the error of how the staging buffer is mapped.
abbrev pub Reads {ℓ} :
    {A : Type ℓ} → Mapping → List A → Option (Result (List A) GpuImageError) → Type ℓ
Reads m out r =
    (m.map_read ≡ ok tt) × (m.range ≡ true) × (r ≡ some (ok out))
    ⊎ (m.map_read ≡ ok tt) × (m.range ≡ false) × (r ≡ some (err GpuImageError.map))
    ⊎ ((p : PollError) × (m.map_read ≡ err (WaitError.poll p))
        × (r ≡ some (err GpuImageError.poll)))
    ⊎ ((e : WaitError) × (m.map_read ≡ err e)
        × ((p : PollError) → e ≢ WaitError.poll p)
        × (r ≡ some (err GpuImageError.map)))

WaitError-cases :
    (e : WaitError)
    → ((p : PollError) × (e ≡ WaitError.poll p))
      ⊎ ((p : PollError) → e ≢ WaitError.poll p) × (map_error e ≡ GpuImageError.map)
WaitError-cases (WaitError.poll p) = inl (p, refl)
WaitError-cases (WaitError.map m) = inr (λ p e. cc, refl)
WaitError-cases WaitError.dropped = inr (λ p e. cc, refl)
WaitError-cases (WaitError.submit_panicked m) = inr (λ p e. cc, refl)
WaitError-cases (WaitError.submit_rejected m) = inr (λ p e. cc, refl)
WaitError-cases (WaitError.poll_panicked m) = inr (λ p e. cc, refl)
WaitError-cases (WaitError.device_lost m) = inr (λ p e. cc, refl)

module _ (h : Half) (casts : Casts h) (g : Gpu h) where
  -- Rows that stand tight in the uploaded bytes and padded in the copied ones are the image's.
  copied-Rows :
      (width height row_bytes : ℕ) (content : List h.Byte) (whole : List h.F16)
      (row : ℕ → List h.Byte)
      → ((y : ℕ) → y < height → slice (y * (width * 8)) (width * 8) (h.bytes whole) ≡ some (row y))
      → ((y : ℕ) → y < height → slice (y * row_bytes) (width * 8) content ≡ some (row y))
      → Rows h g row_bytes (width * 8) (width * 4) height content whole
  copied-Rows width height row_bytes content whole row uploaded staged y a b c e ha hb hy =
      let la : length (h.bytes a) ≡ y * (width * 8) = omega (arith, casts.length-bytes a, ha) in
      let lb : length (h.bytes b) ≡ width * 8 = omega (arith, casts.length-bytes b, hb) in
      let parts =
        ap h.bytes e
        ∙ casts.bytes-append a (b ++ c)
        ∙ ap (λ xs. h.bytes a ++ xs) (casts.bytes-append b c) in
      let tight_row =
        ap (slice (y * (width * 8)) (width * 8)) parts
        ∙ slice-append (h.bytes a) (h.bytes b) (h.bytes c) (y * (width * 8)) (width * 8) la lb in
      (h.bytes b, staged y hy ∙ sym (uploaded y hy) ∙ tight_row, casts.halfs-bytes b)

  unpacked-Rows :
      (img : GpuImage g.Texture) (whole : List h.F16) (s : g.State)
      → img.width * 8 + 255 < 2 ^ 32
      → img.height < 2 ^ 32
      → length whole ≡ img.width * img.height * 4
      → Rows h g
          (padded img.width)
          (img.width * 8)
          (img.width * 4)
          img.height
          (g.copied
            (padded img.width * img.height)
            img.tex
            (padded_layout h g img.width img.height)
            s)
          whole
      → unpacked h g img s ≡ some (map h.to_f32 whole)
  unfolding unpacked
  unpacked-Rows img whole s hw hh hl rows =
      let (aligned, holds, close) = padded_bounds img.width hw in
      let below =
        product_le (padded img.width) img.height 4294967295 4294967295 (omega arith)
          (omega arith) in
      let below4 =
        product_le (img.width * 4) img.height 4294967295 4294967295 (omega arith) (omega arith) in
      let row : mul32 img.width 8 ≡ img.width * 8 = omega arith in
      let four : mul64 img.width 4 ≡ img.width * 4 = omega arith in
      let size : mul64 (padded img.width) img.height ≡ padded img.width * img.height =
        omega arith in
      let floats : mul64 (img.width * 4) img.height ≡ img.height * (img.width * 4) = omega arith in
      let all =
        unpad-rest h g (padded img.width) (img.width * 8) (img.width * 4) img.height
          (g.copied (padded img.width * img.height) img.tex (padded_layout h g img.width img.height)
            s)
          whole rows img.height 0 [] whole refl (omega arith) (omega arith) (omega arith) in
      rw (row, four, size, floats) all

  -- The bytes of an image are counted right, and all go to its texture.
  write_rgba_f32-ok :
      (img : GpuImage g.Texture) (rgba : List h.F32) (s : g.State)
      → img.width * 8 + 255 < 2 ^ 32
      → img.height < 2 ^ 32
      → length rgba ≡ img.width * img.height * 4
      → write_rgba_f32 h g true img rgba s ≡ (
        ok tt,
        g.submit (
            g.write_texture img.tex
              (h.bytes (map h.from_f32 rgba))
              (tight h g img.width img.height)
              s),
      )
  unfolding write_rgba_f32
  write_rgba_f32-ok img rgba s hw hh hl =
      let below =
        product_le img.width img.height 536870911 4294967295 (omega arith) (omega arith) in
      let count : (length rgba == expected_floats img.width img.height) ≡ true = ground arith in
      rw (count)

  uploaded :
      (img : GpuImage g.Texture) (whole : List h.F16) (s : g.State)
      → img.width * 8 + 255 < 2 ^ 32
      → length whole ≡ img.width * img.height * 4
      → Writes h g img.tex (h.bytes whole) (tight h g img.width img.height) s
      → (y : ℕ) → y < img.height
      → slice (y * (img.width * 8)) (img.width * 8) (h.bytes whole)
        ≡ some (
            g.row
              (g.submit
                (g.write_texture img.tex (h.bytes whole) (tight h g img.width img.height) s))
              img.tex
              y)
  uploaded img whole s hw hl writes y hy =
      let row : mul32 img.width 8 ≡ img.width * 8 = omega arith in
      let all : img.width * 8 * img.height ≤ length (h.bytes whole) =
        omega (arith, casts.length-bytes whole) in
      let room : mul32 img.width 8 * img.height ≤ length (h.bytes whole) = rw (row) all in
      ap (λ n. slice (y * n) (img.width * 8) (h.bytes whole)) (sym row)
      ∙ writes (omega arith) (omega arith) room y hy

  read_rgba_f32-Reads :
      (m : Mapping) (img : GpuImage g.Texture) (s : g.State) (out : List h.F32)
      → unpacked h g img s ≡ some out
      → Reads m out (read_rgba_f32 h g true m img s)
  unfolding read_rgba_f32
  read_rgba_f32-Reads m img s out e = elim (Result-cases m.map_read) [
    | inl (u, mapped) ↦ elim (Bool-cases m.range) [
      | inl range ↦ inl (mapped, range, rw (mapped, range, e))
      | inr gone ↦ inr (inl (mapped, gone, rw (mapped, gone)))
    ]
    | inr (x, failed) ↦ elim (WaitError-cases x) [
      | inl (p, e) ↦ inr (inr (inl (p, failed ∙ ap err e, rw (failed, e))))
      | inr (kind, other_error) ↦ inr (inr (inr (x, failed, kind, rw (failed, other_error))))
    ]
  ]

  -- Where the shared device is there, the padded row fits `u32` and wgpu writes and copies rows as
  -- documented, floats of an image's very number are written without an error, and what a read then
  -- gives is these floats, each rounded to `f16`, if the staging buffer is mapped and its range can be
  -- read; else it gives the error of the poll or of the map. It never panics.
  pub read-write :
      (m : Mapping) (img : GpuImage g.Texture) (rgba : List h.F32) (s : g.State)
      → img.width * 8 + 255 < 2 ^ 32
      → img.height < 2 ^ 32
      → length rgba ≡ img.width * img.height * 4
      → Writes h g img.tex (h.bytes (map h.from_f32 rgba)) (tight h g img.width img.height) s
      → Copies h g img.tex
          (padded img.width * img.height)
          (padded_layout h g img.width img.height)
          (write_rgba_f32 h g true img rgba s).1
      → let w = write_rgba_f32 h g true img rgba s in
        (w.0 ≡ ok tt)
        × Reads m (map (λ x. h.to_f32 (h.from_f32 x)) rgba) (read_rgba_f32 h g true m img w.1)
  read-write m img rgba s hw hh hl writes copies =
      let whole = map h.from_f32 rgba in
      let hl' : length whole ≡ img.width * img.height * 4 = length-map h.from_f32 rgba ∙ hl in
      let (aligned, holds, close) = padded_bounds img.width hw in
      let written = write_rgba_f32-ok img rgba s hw hh hl in
      let after = (write_rgba_f32 h g true img rgba s).1 in
      let rows =
        copied-Rows img.width img.height (padded img.width)
          (g.copied (padded img.width * img.height) img.tex (padded_layout h g img.width img.height)
            after)
          whole (g.row after img.tex)
          (λ y hy.
            uploaded img whole s hw hl' writes y hy
            ∙ ap (λ r. some (g.row r.1 img.tex y)) (sym written))
          (copies aligned holds (omega arith) (omega arith)) in
      let read = unpacked-Rows img whole after hw hh hl' rows in
      (
        ap (λ r. r.0) written,
        read_rgba_f32-Reads m img after (map (λ x. h.to_f32 (h.from_f32 x)) rgba)
            (read ∙ ap some (map-map h.from_f32 h.to_f32 rgba)),
      )
