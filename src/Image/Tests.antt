-- ===== src/Image/Tests.antt =====
-- Runs of src/image.rs on a texture of one column and two rows; a number that is cut to 2048 stands
-- for an `f16`, and a number and a zero for its two bytes.
use gpu_info_rs.Prelude.{
  ℕ, zero, suc, ◌*◌, ◌%◌, ◌≡◌, refl, ap, true, List, [], ◌∷◌, ◌++◌, map, ok, err, arith, length,
  take, drop,
}
use gpu_info_rs.Image.Device.{Half, Casts, Gpu, Writes, Copies}
use gpu_info_rs.Image.Error.{Mapping, too_large, validate_dims}
use gpu_info_rs.Image.Host.{
  GpuImage, padded, tight, padded_layout, replicate, write_rgba_f32, read_rgba_f32, new,
}
use gpu_info_rs.Image.Readback.{Reads, read-write}

abbrev cast : List ℕ → List ℕ
cast [] = []
cast (x ∷ xs) = x ∷ 0 ∷ cast xs

abbrev cast_back : List ℕ → List ℕ
cast_back [] = []
cast_back (x ∷ []) = []
cast_back (x ∷ y ∷ xs) = x ∷ cast_back xs

abbrev half : Half
half = record {
  F32 = ℕ;
  F16 = ℕ;
  Byte = ℕ;
  zero_f32 = 0;
  from_f32 = λ x. x % 2048;
  to_f32 = λ x. x;
  bytes = cast;
  halfs = cast_back;
}

length-cast : (xs : List ℕ) → length (cast xs) ≡ 2 * length xs
length-cast [] = refl
length-cast (x ∷ xs) = omega (arith, length-cast xs)

cast-append : (xs ys : List ℕ) → cast (xs ++ ys) ≡ cast xs ++ cast ys
cast-append [] ys = refl
cast-append (x ∷ xs) ys = ap (λ zs. x ∷ 0 ∷ zs) (cast-append xs ys)

cast_back-cast : (xs : List ℕ) → cast_back (cast xs) ≡ xs
cast_back-cast [] = refl
cast_back-cast (x ∷ xs) = ap (λ zs. x ∷ zs) (cast_back-cast xs)

abbrev casts : Casts half
casts = record {
  length-bytes = length-cast;
  bytes-append = cast-append;
  halfs-bytes = cast_back-cast;
}

abbrev texel : List ℕ → ℕ → List ℕ
texel s y = take 8 (drop (y * 8) s)

abbrev gpu : Gpu half
gpu = record {
  State = List ℕ;
  Texture = Unit;
  max_texture_dimension_2d = 4;
  create_texture = λ w h s. (tt, replicate (w * h * 8) 0);
  write_texture = λ t content l s. content;
  submit = λ s. s;
  copied = λ size t l s. texel s 0 ++ (replicate 248 9 ++ (texel s 1 ++ replicate 248 9));
  row = λ s t y. texel s y;
}

abbrev image : GpuImage (Unit {0})
image = record { tex = tt; width = 1; height = 2 }

abbrev floats : List ℕ
floats = 1 ∷ 2 ∷ 3 ∷ 4 ∷ 5 ∷ 6 ∷ 7 ∷ 2050 ∷ []

abbrev mapping : Mapping
mapping = record { map_read = ok tt; range = true }

writes : Writes half gpu tt (cast (map (λ x. x % 2048) floats)) (tight half gpu 1 2) []
writes row image_rows all zero h = refl
writes row image_rows all (suc zero) h = refl
writes row image_rows all (suc (suc y)) h = absurd (omega arith)

copies :
    Copies half gpu tt
      (padded 1 * 2)
      (padded_layout half gpu 1 2)
      (write_rgba_f32 half gpu true image floats []).1
unfolding padded write_rgba_f32
copies aligned row image_rows all zero h = refl
copies aligned row image_rows all (suc zero) h = refl
copies aligned row image_rows all (suc (suc y)) h = absurd (omega arith)

read-write_example :
    let w = write_rgba_f32 half gpu true image floats [] in
    (w.0 ≡ ok tt)
    × Reads mapping (map (λ x. x % 2048) floats) (read_rgba_f32 half gpu true mapping image w.1)
read-write_example =
    read-write half casts gpu mapping image floats [] (omega arith) (omega arith) refl writes copies

too_wide : (new half gpu true 5 1 []).0 ≡ err (too_large 5 1 4)
unfolding new validate_dims
too_wide = refl
