-- ===== src/Resources/Sizes.antt =====
-- The logical bytes of a descriptor (src/resources.rs) are exact.
use gpu_info_rs.Prelude.{
  ℕ, zero, suc, ◌+◌, ◌*◌, ◌≤◌, ◌<◌, ◌≡◌, refl, sym, Bool-cases, inl, inr, not, ◌||◌, Option, none,
  some, Result, ok, err, arith, u64_max, leb, Option-cases, checked_mul,
}
use gpu_info_rs.Resources.Wgpu.{Wgpu, Limits, Extent}
use gpu_info_rs.Resources.Spec.{
  ResourceError, admission, invalid_descriptor, unsupported_format, overflow, gpu, host_allocation,
  slot, upload_state, bad_texture, bad_extent, bad_view, is_multiple_of, TextureSpec, div_ceil,
  and_then, level_bytes, plus_level, sum_levels, aligned_bytes, texture_bytes, bytes,
}

-- What is computed with overflow checks is the true number, or the true number is no `u64`.
abbrev Covers : Option ℕ → ℕ → Type 0
Covers none m = u64_max < m
Covers (some n) m = (n ≡ m) × (m ≤ u64_max)

checked_mul-Covers : (a b : ℕ) → Covers (checked_mul a b) (a * b)
checked_mul-Covers a b = elim (Bool-cases (leb (a * b) u64_max)) [
  | inl e ↦ rw e (refl, ground arith)
  | inr e ↦ rw e (ground arith)
]

and_then-Covers :
    (o : Option ℕ) (m a : ℕ)
    → Covers o m
    → 1 ≤ a
    → Covers (and_then o (λ k. checked_mul k a)) (m * a)
and_then-Covers none m zero c h = absurd (omega (arith, h))
and_then-Covers none m (suc a) c h = ground arith
and_then-Covers (some n) m a (e, _) h = rw e (checked_mul-Covers m a)

module _ (w : Wgpu) where
  -- The bytes of a level, and of the levels from `level` on, as numbers that do not wrap.
  abbrev pub level_size : TextureSpec w → (block bw bh : ℕ) → Extent → ℕ
  level_size s block bw bh mip =
      div_ceil mip.width bw
      * div_ceil mip.height bh
      * mip.depth_or_array_layers
      * s.sample_count
      * block

  unfoldable pub levels_size : TextureSpec w → (block bw bh : ℕ) → (left level : ℕ) → ℕ
  levels_size s block bw bh zero level = 0
  levels_size s block bw bh (suc left) level =
      level_size s block bw bh (w.mip_level_size s.size level s.dimension)
      + levels_size s block bw bh left (suc level)

  level_bytes-Covers :
      (s : TextureSpec w) (block bw bh : ℕ) (mip : Extent)
      → 1 ≤ mip.depth_or_array_layers
      → 1 ≤ s.sample_count
      → 1 ≤ block
      → Covers (level_bytes w s block bw bh mip) (level_size s block bw bh mip)
  level_bytes-Covers s block bw bh mip d c b =
      and_then-Covers _ _ block
        (and_then-Covers _ _ s.sample_count
          (and_then-Covers _ _ mip.depth_or_array_layers
            (checked_mul-Covers (div_ceil mip.width bw) (div_ceil mip.height bh)) d)
          c)
        b

  -- A success is the true size; an overflow is reported only when there is one.
  abbrev pub Exact : Result ℕ (ResourceError w) → ℕ → Type 0
  Exact (ok n) m = (n ≡ m) × (m ≤ u64_max)
  Exact (err x) m = (x ≡ overflow) × (u64_max < m)

  plus_level-Exact :
      (o : Option ℕ) (bytes size rest : ℕ) (next : ℕ → Result ℕ (ResourceError w))
      → Covers o size
      → ((n : ℕ) → n ≡ bytes + size → n ≤ u64_max → Exact (next n) (n + rest))
      → Exact (plus_level w o bytes next) (bytes + (size + rest))
  plus_level-Exact none bytes size rest next c k = (refl, omega (arith, c))
  plus_level-Exact (some n) bytes size rest next (e, f) k =
      elim (Bool-cases (leb (bytes + n) u64_max)) [
        | inl y ↦
            let sum : bytes + n + rest ≡ bytes + (size + rest) = omega (arith, e) in
            rw (y, sym sum) (k (bytes + n) (omega (arith, e)) (ground arith))
        | inr y ↦ rw y (refl, ground arith)
      ]

  sum_levels-Exact :
      (s : TextureSpec w) (block bw bh left level bytes : ℕ)
      → ((k : ℕ) → 1 ≤ (w.mip_level_size s.size k s.dimension).depth_or_array_layers)
      → 1 ≤ s.sample_count
      → 1 ≤ block
      → bytes ≤ u64_max
      → Exact
          (sum_levels w s block bw bh left level bytes)
          (bytes + levels_size s block bw bh left level)
  unfolding sum_levels levels_size
  sum_levels-Exact s block bw bh zero level bytes d c b u = (omega arith, omega arith)
  sum_levels-Exact s block bw bh (suc left) level bytes d c b u =
      plus_level-Exact _ bytes _ (levels_size s block bw bh left (suc level)) _
        (level_bytes-Covers s block bw bh (w.mip_level_size s.size level s.dimension) (d level) c b)
        (λ n e f. sum_levels-Exact s block bw bh left (suc level) n d c b f)

  abbrev pub texture_size : TextureSpec w → ℕ → ℕ
  texture_size s block =
      let (bw, bh) = w.block_dimensions s.format in levels_size s block bw bh s.mip_level_count 0

  -- An answer for a texture of a format with blocks of a known size.
  abbrev pub Sized : TextureSpec w → Result ℕ (ResourceError w) → Type 0
  Sized s (ok n) =
      (block : ℕ) × (w.block_copy_size s.format ≡ some block)
      × (n ≡ texture_size s block)
      × (n ≤ u64_max)
  Sized s (err overflow) =
      (block : ℕ) × (w.block_copy_size s.format ≡ some block) × (u64_max < texture_size s block)
  Sized s (err _) = Unit

  Exact-Sized :
      (s : TextureSpec w) (block : ℕ) (r : Result ℕ (ResourceError w))
      → w.block_copy_size s.format ≡ some block
      → Exact r (texture_size s block)
      → Sized s r
  Exact-Sized s block (ok n) e (h, k) = (block, e, h, omega (arith, h))
  Exact-Sized s block (err overflow) e (h, k) = (block, e, k)
  Exact-Sized s block (err (admission x)) e h = tt
  Exact-Sized s block (err (invalid_descriptor x)) e h = tt
  Exact-Sized s block (err (unsupported_format x)) e h = tt
  Exact-Sized s block (err (gpu x)) e h = tt
  Exact-Sized s block (err host_allocation) e h = tt
  Exact-Sized s block (err slot) e h = tt
  Exact-Sized s block (err upload_state) e h = tt

  aligned_bytes-Sized :
      (s : TextureSpec w) (block : ℕ)
      → w.block_copy_size s.format ≡ some block
      → ((k : ℕ) → 1 ≤ (w.mip_level_size s.size k s.dimension).depth_or_array_layers)
      → 1 ≤ s.sample_count
      → 1 ≤ block
      → let (bw, bh) = w.block_dimensions s.format in Sized s (aligned_bytes w s block bw bh)
  aligned_bytes-Sized s block e d c b =
      let (bw, bh) = w.block_dimensions s.format in
      elim (Bool-cases
        (not (is_multiple_of s.size.width bw) || not (is_multiple_of s.size.height bh))) [
          | inl y ↦ rw y tt
          | inr y ↦
              let start : 0 + texture_size s block ≡ texture_size s block = omega arith in
              rw y (
                Exact-Sized s block _ e (
                  rw start at
                    (sum_levels-Exact s block bw bh s.mip_level_count 0 0 d c b (omega arith))))
        ]

  -- A texture's logical size is exact: a success is the sum over its mip levels of blocks, layers,
  -- samples and bytes of a block, and an overflow is reported only when that sum is no `u64`; if
  -- mip levels have layers and blocks have bytes.
  pub texture_bytes-Sized :
      (s : TextureSpec w) (limits : Limits)
      → ((k : ℕ) → 1 ≤ (w.mip_level_size s.size k s.dimension).depth_or_array_layers)
      → ((block : ℕ) → w.block_copy_size s.format ≡ some block → 1 ≤ block)
      → Sized s (texture_bytes w s limits)
  unfolding texture_bytes
  texture_bytes-Sized s limits d b = elim (Bool-cases (bad_texture w s)) [
    | inl y ↦ rw (y, texture_bytes) tt
    | inr y ↦ elim (Bool-cases (bad_extent w s limits)) [
      | inl z ↦ rw (y, z, texture_bytes) tt
      | inr z ↦ elim (Bool-cases (bad_view w s.view_format s.format)) [
        | inl v ↦ rw (y, z, v, texture_bytes) tt
        | inr v ↦ elim (Option-cases (w.block_copy_size s.format)) [
          | inl e ↦ rw (y, z, v, e, texture_bytes) tt
          | inr (block, e) ↦
              rw (y, z, v, e, texture_bytes)
                (aligned_bytes-Sized s block e d (ground arith) (b block e))
        ]
      ]
    ]
  ]
