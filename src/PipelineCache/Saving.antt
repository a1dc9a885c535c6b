-- ===== src/PipelineCache/Saving.antt =====
-- What `save` (src/pipeline_cache.rs) leaves in the file of a cache, and what others see of it.
use gpu_info_rs.Prelude.{
  ℕ, ◌≡◌, refl, sym, ◌∙◌, ◌⊎◌, inl, inr, true, false, Option, none, some, List, [], ◌∷◌, ◌++◌, map,
  ok, err, arith, All, Bool-cases,
}
use gpu_info_rs.PipelineCache.Files.{
  Bytes, Disk, Fate, IoError, no_directory, no_write, no_rename, with_temp, left_by,
  write_atomically,
}
use gpu_info_rs.PipelineCache.{DiskPipelineCache, is_saved, fingerprint, Saved, save}

-- The file holds what it held, or all of the new content.
abbrev pub Whole : Disk → Bytes → Disk → Type 0
Whole d bytes s = (s.target ≡ d.target) ⊎ (s.target ≡ some bytes)

module _ (d : Disk) (bytes : Bytes) where
  parts-Whole : (parts : List Bytes) → All (Whole d bytes) (map (with_temp d) parts)
  parts-Whole [] = tt
  parts-Whole (p ∷ ps) = (inl refl, parts-Whole ps)

  ends-Whole :
      (xs ys : List Disk)
      → All (Whole d bytes) xs
      → All (Whole d bytes) ys
      → All (Whole d bytes) (xs ++ ys)
  ends-Whole [] ys a b = b
  ends-Whole (x ∷ xs) ys (h, a) b = (h, ends-Whole xs ys a b)

  left_by-target : (parts : List Bytes) → (left_by d parts).target ≡ d.target
  left_by-target [] = refl
  left_by-target (p ∷ []) = refl
  left_by-target (p ∷ q ∷ ps) = left_by-target (q ∷ ps)

  -- Where no other save of the process writes the same temporary file meanwhile: whichever call
  -- fails and whatever the temporary file holds in between, nobody sees a part of the content: at each moment the file holds what it held or all of it. On success it holds all of it;
  -- on failure, what it held.
  pub write_atomically-Whole :
      (f : Fate)
      → let w = write_atomically f bytes d in
        All (Whole d bytes) w.seen
        × ((w.result ≡ ok tt) × (w.disk.target ≡ some bytes) × (w.disk.temp ≡ none)
            ⊎ ((e : IoError) × (w.result ≡ err e) × (w.disk.target ≡ d.target)))
  unfolding write_atomically
  write_atomically-Whole f = elim (Bool-cases f.directory) [
    | inr no_dir ↦ rw no_dir (tt, inr (no_directory, refl, refl))
    | inl dir ↦ elim (Bool-cases f.write) [
      | inr part ↦
          rw (dir, part) (parts-Whole f.parts, inr (no_write, refl, left_by-target f.parts))
      | inl all ↦ elim (Bool-cases f.rename) [
        | inr kept ↦
            rw (dir, all, kept)
              (
                ends-Whole (map (with_temp d) f.parts) (with_temp d bytes ∷ [])
                    (parts-Whole f.parts) (inl refl, tt),
                inr (no_rename, refl, refl),
              )
        | inl moved ↦
            rw (dir, all, moved)
              (
                ends-Whole (map (with_temp d) f.parts)
                    (with_temp d bytes ∷ record { target = some bytes; temp = none } ∷ [])
                    (parts-Whole f.parts) (inl refl, (inr refl, tt)),
                inl (refl, refl, refl),
              )
      ]
    ]
  ]

option_injective {ℓ} : {A : Type ℓ} {a b : A} → some a ≡ some b → a ≡ b
option_injective e = cc e

module _ (hash : Bytes → ℕ) where
  -- The cache remembers the fingerprint of what the file holds, or none.
  abbrev pub InSync : DiskPipelineCache → Disk → Type 0
  InSync c d =
      (c.saved ≡ none)
      ⊎ ((bytes : Bytes) × (d.target ≡ some bytes) × (c.saved ≡ some (fingerprint hash bytes)))

  -- What a save does with data: the file has its fingerprint, or a failure is logged and neither the
  -- file nor the cache changes.
  abbrev pub Stored : DiskPipelineCache → Disk → Bytes → Saved hash → Type 0
  Stored c d bytes r =
      (r.warned ≡ false)
        × ((kept : Bytes) × (r.written.disk.target ≡ some kept)
            × (fingerprint hash kept ≡ fingerprint hash bytes))
      ⊎ (r.warned ≡ true) × (r.written.disk.target ≡ d.target) × (r.cache ≡ c)

  is_saved-some :
      (current : ℕ × ℕ) (s : Option (ℕ × ℕ)) → is_saved current s ≡ true → s ≡ some current
  is_saved-some current none e = absurd (ground arith)
  is_saved-some (a, b) (some (x, y)) e = ground arith

  -- Where a cache remembers what the file holds, and nobody else writes the file or its temporary file, a save keeps it so;
  -- afterwards the file has the fingerprint of the driver's data, or a failure is logged and
  -- nothing changes. Others see the old content or all of the data.
  pub save-Stored :
      (c : DiskPipelineCache) (bytes : Bytes) (f : Fate) (d : Disk)
      → InSync c d
      → let r = save hash c (some bytes) f d in
        InSync r.cache r.written.disk × Stored c d bytes r × All (Whole d bytes) r.written.seen
  unfolding save
  save-Stored c bytes f d v = elim (Bool-cases (is_saved (fingerprint hash bytes) c.saved)) [
    | inl same ↦
        let known = is_saved-some (fingerprint hash bytes) c.saved same in
        rw same (
          v,
          inl (
            refl,
            elim v [
              | inl n ↦ absurd (ground arith)
              | inr (kept, t, s) ↦ (kept, t, option_injective (sym s ∙ known))
            ],
          ),
          tt,
        )
    | inr other ↦
        let (seen, ends) = write_atomically-Whole d bytes f in
        elim ends [
          | inl (e, t, _) ↦ rw (other, e) (inr (bytes, t, refl), inl (refl, (bytes, t, refl)), seen)
          | inr (x, e, t) ↦
              rw (other, e)
                (
                  elim v [ inl n ↦ inl n | inr (kept, t', s) ↦ inr (kept, t ∙ t', s) ],
                  inr (refl, t, refl),
                  seen,
                )
        ]
  ]
