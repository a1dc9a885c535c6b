-- ===== src/PipelineCache/Registry.antt =====
-- The registry of src/pipeline_cache.rs opens the cache of a device once.
use gpu_info_rs.Prelude.{
  ℕ, ◌≡◌, refl, inl, inr, Bool, true, Option, none, some, List, [], ◌∷◌, ◌++◌, arith, length,
  Bool-cases, Option-cases,
}
use gpu_info_rs.PipelineCache.{DiskPipelineCache, Caches, find_known, pipeline_cache}

module _ {D : Type 0} (device_eq : D → D → Bool) where
  -- Calls for devices, with what an opening would give at each: the registry after them.
  abbrev pub after_calls : List (D × Option DiskPipelineCache) → Caches D → Caches D
  after_calls [] s = s
  after_calls ((device, opened) ∷ calls) s =
      after_calls calls (pipeline_cache device_eq device opened s).1

  find_known-append :
      (device : D) (xs ys : List (D × Option ℕ)) (c : Option ℕ)
      → find_known device_eq device xs ≡ some c
      → find_known device_eq device (xs ++ ys) ≡ some c
  find_known-append device [] ys c e = absurd (ground arith)
  find_known-append device ((k, x) ∷ xs) ys c e = elim (Bool-cases (device_eq k device)) [
    | inl hit ↦ rw hit (rw hit at e)
    | inr miss ↦ rw miss (find_known-append device xs ys c (rw miss at e))
  ]

  find_known-last :
      (device : D) (xs : List (D × Option ℕ)) (c : Option ℕ)
      → device_eq device device ≡ true
      → find_known device_eq device xs ≡ none
      → find_known device_eq device (xs ++ (device, c) ∷ []) ≡ some c
  find_known-last device [] c r e = rw r refl
  find_known-last device ((k, x) ∷ xs) c r e = elim (Bool-cases (device_eq k device)) [
    | inl hit ↦ let e' = rw hit at e in absurd (ground arith)
    | inr miss ↦ rw miss (find_known-last device xs c r (rw miss at e))
  ]

  -- A call leaves what is known of every device that was known.
  call_keeps :
      (device other : D) (opened : Option DiskPipelineCache) (s : Caches D) (c : Option ℕ)
      → find_known device_eq device s.known ≡ some c
      → find_known device_eq device (pipeline_cache device_eq other opened s).1.known ≡ some c
  unfolding pipeline_cache
  call_keeps device other opened s c e = elim (Option-cases (find_known device_eq other s.known)) [
    | inr (x, known) ↦ rw known e
    | inl fresh ↦ elim (Option-cases opened) [
      | inl closed ↦ rw (fresh, closed) (find_known-append device s.known _ c e)
      | inr (cache, there) ↦ rw (fresh, there) (find_known-append device s.known _ c e)
    ]
  ]

  calls_keep :
      (device : D) (calls : List (D × Option DiskPipelineCache)) (s : Caches D) (c : Option ℕ)
      → find_known device_eq device s.known ≡ some c
      → find_known device_eq device (after_calls calls s).known ≡ some c
  calls_keep device [] s c e = e
  calls_keep device ((other, opened) ∷ calls) s c e =
      calls_keep device calls (pipeline_cache device_eq other opened s).1 c
        (call_keeps device other opened s c e)

  call_knows :
      (device : D) (opened : Option DiskPipelineCache) (s : Caches D)
      → device_eq device device ≡ true
      → let (c, s') = pipeline_cache device_eq device opened s in
        find_known device_eq device s'.known ≡ some c
  unfolding pipeline_cache
  call_knows device opened s r = elim (Option-cases (find_known device_eq device s.known)) [
    | inr (x, known) ↦ rw known known
    | inl fresh ↦ elim (Option-cases opened) [
      | inl closed ↦ rw (fresh, closed) (find_known-last device s.known none r fresh)
      | inr (cache, there) ↦
          rw (fresh, there) (find_known-last device s.known (some (length s.opened)) r fresh)
    ]
  ]

  -- For a device that equals itself: once its cache, or that it has none, was answered, every later
  -- call of the device is answered the same and changes nothing, whatever calls come in between and
  -- whatever an opening would then give.
  pub pipeline_cache_once :
      (device : D) (opened reopened : Option DiskPipelineCache)
      → (calls : List (D × Option DiskPipelineCache)) (s : Caches D)
      → device_eq device device ≡ true
      → let (c, s') = pipeline_cache device_eq device opened s in
        let later = after_calls calls s' in
        pipeline_cache device_eq device reopened later ≡ (c, later)
  unfolding pipeline_cache
  pipeline_cache_once device opened reopened calls s r =
      let (c, s') = pipeline_cache device_eq device opened s in
      let known = calls_keep device calls s' c (call_knows device opened s r) in rw known refl
