-- ===== src/PipelineCache/Tests.antt =====
-- Runs of src/pipeline_cache.rs with the length of a content as its hash.
use gpu_info_rs.Prelude.{
  ℕ, ◌≡◌, refl, ◌⊎◌, inr, Bool, true, false, none, some, [], ◌∷◌, ◌==◌, ok, err, All, length,
  string_eq, if◌then◌else◌,
}
use gpu_info_rs.PipelineCache.Files.{Bytes, Disk, Fate, IoError, write_atomically}
use gpu_info_rs.PipelineCache.{
  DiskPipelineCache, Caches, fingerprint, save, pipeline_cache, cache_dir,
}
use gpu_info_rs.PipelineCache.Saving.{Whole, InSync, Stored, write_atomically-Whole, save-Stored}
use gpu_info_rs.PipelineCache.Registry.{after_calls, pipeline_cache_once}

abbrev fate : Fate
fate = record { directory = true; parts = [] ∷ (1 ∷ []) ∷ []; write = true; rename = false }

abbrev disk : Disk
disk = record { target = some (7 ∷ []); temp = none }

abbrev content : Bytes
content = 1 ∷ 2 ∷ []

abbrev hash : Bytes → ℕ
hash bytes = length bytes

abbrev cache : DiskPipelineCache
cache = record { file = "cache" ∷ []; saved = some (1, 1) }

write_atomically-Whole_example :
    let w = write_atomically fate content disk in
    All (Whole disk content) w.seen
    × ((w.result ≡ ok tt) × (w.disk.target ≡ some content) × (w.disk.temp ≡ none)
        ⊎ ((e : IoError) × (w.result ≡ err e) × (w.disk.target ≡ disk.target)))
write_atomically-Whole_example = write_atomically-Whole disk content fate

save-Stored_example :
    let r = save hash cache (some content) fate disk in
    InSync hash r.cache r.written.disk
    × Stored hash cache disk content r
    × All (Whole disk content) r.written.seen
unfolding fingerprint
save-Stored_example = save-Stored hash cache content fate disk (inr (7 ∷ [], refl, refl))

abbrev same : ℕ → ℕ → Bool
same a b = a == b

abbrev empty : Caches ℕ
empty = record { known = []; opened = [] }

pipeline_cache_once_example :
    let (c, s) = pipeline_cache same 4 (some cache) empty in
    let later = after_calls same ((5, none) ∷ []) s in pipeline_cache same 4 none later ≡ (c, later)
pipeline_cache_once_example =
    pipeline_cache_once same 4 (some cache) none ((5, none) ∷ []) empty refl

home :
    cache_dir false false (λ name. if string_eq name "HOME" then some "/home/u" else some "")
    ≡ some ("/home/u" ∷ ".cache" ∷ [])
unfolding cache_dir
home = refl
