-- ===== src/Image/Rows.antt =====
-- The loop of `read_rgba_f32` (src/image.rs) over rows that stand in the buffer.
use mathlib.Core.List.{append_assoc}
use gpu_info_rs.Prelude.{
  ℕ, zero, suc, ◌+◌, ◌*◌, ◌≤◌, ◌<◌, ◌≡◌, refl, sym, ap, ◌∙◌, true, some, List, [], ◌∷◌, ◌++◌, map,
  arith, length, take, drop, length-append, leb,
}
use gpu_info_rs.Image.Device.{Half, Gpu, slice}
use gpu_info_rs.Image.Host.{fill, overwrite, replicate, unpad}

module _ {ℓ} {A : Type ℓ} where
  take-length : (a b : List A) → take (length a) (a ++ b) ≡ a
  take-length [] b = refl
  take-length (x ∷ a) b = ap (λ xs. x ∷ xs) (take-length a b)

  drop-length : (a b : List A) → drop (length a) (a ++ b) ≡ b
  drop-length [] b = refl
  drop-length (x ∷ a) b = drop-length a b

  pub slice-append :
      (a b c : List A) (n k : ℕ) → length a ≡ n → length b ≡ k → slice n k (a ++ (b ++ c)) ≡ some b
  slice-append a b c n k ha hb =
      let whole : n + k ≤ length (a ++ (b ++ c)) =
        omega (arith, length-append a (b ++ c), length-append b c) in
      let fits : leb (n + k) (length (a ++ (b ++ c))) ≡ true = ground arith in
      rw (fits, sym ha, drop-length a (b ++ c), sym hb, take-length b c)

  pub split :
      (n : ℕ) (xs : List A)
      → n ≤ length xs
      → (b : List A) × (c : List A) × (xs ≡ b ++ c) × (length b ≡ n)
  split zero xs h = ([], xs, refl, refl)
  split (suc n) [] h = absurd (omega arith)
  split (suc n) (x ∷ xs) h =
      let (b, c, e, k) = split n xs (omega arith) in (x ∷ b, c, ap (λ ys. x ∷ ys) e, ap suc k)

  fill-replicate :
      (src : List A) (z : A) (m : ℕ)
      → fill (length src) src (replicate (length src + m) z) ≡ src ++ replicate m z
  fill-replicate [] z m =
      let none_left : 0 + m ≡ m = omega arith in ap (λ n. replicate n z) none_left
  fill-replicate (x ∷ src) z m =
      let one : suc (length src) + m ≡ suc (length src + m) = omega arith in
      rw (one, fill-replicate src z m)

  -- A write behind what is done, over the zeros.
  overwrite-append :
      (front src : List A) (z : A) (m n k : ℕ)
      → length front ≡ n
      → length src ≡ k
      → overwrite n k src (front ++ replicate (k + m) z) ≡ front ++ (src ++ replicate m z)
  overwrite-append front src z m n k hn hk = rw (
    sym hn,
    sym hk,
    take-length front (replicate (length src + m) z),
    drop-length front (replicate (length src + m) z),
    fill-replicate src z m,
  )

module _ {ℓ κ} {A : Type ℓ} {B : Type κ} where
  pub length-map : (f : A → B) (xs : List A) → length (map f xs) ≡ length xs
  length-map f [] = refl
  length-map f (x ∷ xs) = ap suc (length-map f xs)

  pub map-append : (f : A → B) (xs ys : List A) → map f (xs ++ ys) ≡ map f xs ++ map f ys
  map-append f [] ys = refl
  map-append f (x ∷ xs) ys = ap (λ zs. f x ∷ zs) (map-append f xs ys)

module _ (h : Half) (g : Gpu h) (row_bytes unpadded row_floats height : ℕ) (content : List h.Byte)
    (whole : List h.F16) where
  -- Every row of the image stands in the buffer at its place.
  abbrev pub Rows : Type 0
  Rows =
      (y : ℕ) (a b c : List h.F16)
      → whole ≡ a ++ (b ++ c)
      → length a ≡ y * row_floats
      → length b ≡ row_floats
      → y < height
      → (r : List h.Byte) × (slice (y * row_bytes) unpadded content ≡ some r) × (h.halfs r ≡ b)

  -- One row: from the loop behind row `y` to the loop from `y` on.
  unpad-suc :
      (left y : ℕ) (a b c : List h.F16) (r : List h.Byte)
      → slice (y * row_bytes) unpadded content ≡ some r
      → h.halfs r ≡ b
      → length a ≡ y * row_floats
      → length b ≡ row_floats
      → unpad h g row_bytes unpadded row_floats content left
          (suc y)
          (map h.to_f32 (a ++ b) ++ replicate (left * row_floats) h.zero_f32)
        ≡ some (map h.to_f32 (a ++ b) ++ map h.to_f32 c)
      → unpad h g row_bytes unpadded row_floats content
          (suc left)
          y
          (map h.to_f32 a ++ replicate (suc left * row_floats) h.zero_f32)
        ≡ some (map h.to_f32 a ++ map h.to_f32 (b ++ c))
  unfolding unpad
  unpad-suc left y a b c r found is_b ha hb tail =
      let next : suc left * row_floats ≡ row_floats + left * row_floats = omega arith in
      let zeros = replicate (left * row_floats) h.zero_f32 in
      let a32 = map h.to_f32 a in
      let b32 = map h.to_f32 b in
      let c32 = map h.to_f32 c in
      let write =
        overwrite-append a32 b32 h.zero_f32 (left * row_floats) (y * row_floats) row_floats
          (length-map h.to_f32 a ∙ ha) (length-map h.to_f32 b ∙ hb) in
      let tail' =
        rw (map-append h.to_f32 a b, append_assoc a32 b32 zeros, append_assoc a32 b32 c32) at
          tail in
      rw (next, found, is_b, write, map-append h.to_f32 b c, tail')

  -- From row `y` on, behind the floats that are written.
  pub unpad-rest :
      Rows
      → (left y : ℕ) (a rest : List h.F16) → whole ≡ a ++ rest
      → y + left ≡ height
      → length a ≡ y * row_floats
      → length rest ≡ left * row_floats
      → unpad h g row_bytes unpadded row_floats content left y
          (map h.to_f32 a ++ replicate (left * row_floats) h.zero_f32)
        ≡ some (map h.to_f32 a ++ map h.to_f32 rest)
  unfolding unpad
  unpad-rest rows zero y a [] e sum ha hr =
      let none_left : 0 * row_floats ≡ 0 = omega arith in rw (none_left)
  unpad-rest rows zero y a (x ∷ rest) e sum ha hr = absurd (omega arith)
  unpad-rest rows (suc left) y a rest e sum ha hr =
      let next : suc left * row_floats ≡ row_floats + left * row_floats = omega arith in
      let (b, c, parts, hb) = split row_floats rest (omega arith) in
      let e' = e ∙ ap (λ xs. a ++ xs) parts in
      let (r, found, is_b) = rows y a b c e' ha hb (omega arith) in
      let hab : length (a ++ b) ≡ suc y * row_floats = omega (arith, length-append a b) in
      let hc : length c ≡ left * row_floats =
        omega (arith, length-append b c, sym (ap length parts)) in
      let tail =
        unpad-rest rows left (suc y) (a ++ b) c (e' ∙ sym (append_assoc a b c)) (omega arith) hab
          hc in
      unpad-suc left y a b c r found is_b ha hb tail
      ∙ ap (λ xs. some (map h.to_f32 a ++ map h.to_f32 xs)) (sym parts)
