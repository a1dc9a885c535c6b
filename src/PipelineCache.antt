-- ===== src/PipelineCache.antt =====
-- The persistent pipeline cache (src/pipeline_cache.rs). The file system shows one file and the
-- temporary file beside it; a `Fate` tells which of its calls fail. The driver's data, its features and
-- the hash of a text are arguments.
pub mod Files
pub mod Saving
pub mod Registry
pub mod Tests
use Prim.Native.String.{String}
use gpu_info_rs.Prelude.{
  ℕ, Bool, true, false, not, ◌&&◌, Option, none, some, List, [], ◌∷◌, ◌++◌, Result, ok, err, length,
  if◌then◌else◌, ◌==◌, string_eq, map_option, and_some, get_elem?, set,
}
use gpu_info_rs.PipelineCache.Files.{Bytes, Disk, IoError, Fate, Written, write_atomically}

-- A device's cache. `file` is the path from the cache directory on.
pub record DiskPipelineCache : Type 0 where
  pub file : List String
  pub saved : Option (ℕ × ℕ)

abbrev pub pair_eq : ℕ × ℕ → ℕ × ℕ → Bool
pair_eq (a, b) (c, d) = (a == c) && (b == d)

-- `Some(current) == *saved`.
abbrev pub is_saved : ℕ × ℕ → Option (ℕ × ℕ) → Bool
is_saved current none = false
is_saved current (some s) = pair_eq current s

-- The environment variables of the cache directory; an empty one counts as missing.
abbrev pub var : (String → Option String) → String → Option String
var env name = and_some (env name) (λ value. if string_eq value "" then none else some value)

abbrev or_else : Option (List String) → Option (List String) → Option (List String)
or_else none instead = instead
or_else (some p) instead = some p

unfoldable pub cache_dir : (windows macos : Bool) → (String → Option String) → Option (List String)
cache_dir windows macos env =
    if windows
    then map_option (λ dir. dir ∷ []) (var env "LOCALAPPDATA")
    else if macos
    then map_option (λ home. home ∷ "Library" ∷ "Caches" ∷ []) (var env "HOME")
    else or_else (map_option (λ dir. dir ∷ []) (var env "XDG_CACHE_HOME"))
        (map_option (λ home. home ∷ ".cache" ∷ []) (var env "HOME"))

module _ (hash : Bytes → ℕ) where
  unfoldable pub fingerprint : Bytes → ℕ × ℕ
  fingerprint content = (length content, hash content)

  -- What a call of `save` leaves: the cache, what the disk shows, and whether a failure is logged.
  pub record Saved : Type 0 where
    pub cache : DiskPipelineCache
    pub written : Written
    pub warned : Bool

  abbrev idle : DiskPipelineCache → Disk → Saved
  idle c d = record {
    cache = c;
    written = record { seen = []; disk = d; result = ok tt };
    warned = false;
  }

  abbrev pub after_write : DiskPipelineCache → ℕ × ℕ → Written → Result (Unit {0}) IoError → Saved
  after_write c current w (ok u) = record {
    cache = record c { saved = some current };
    written = w;
    warned = false;
  }
  after_write c current w (err e) = record { cache = c; written = w; warned = true }

  -- `DiskPipelineCache::save`, with the data that the driver gives.
  unfoldable pub save : DiskPipelineCache → Option Bytes → Fate → Disk → Saved
  save c none f d = idle c d
  save c (some bytes) f d =
      let w = write_atomically f bytes d in
      if is_saved (fingerprint bytes) c.saved
      then idle c d
      else after_write c (fingerprint bytes) w w.result

  -- `open_in`: whether the device has the feature, the key of its adapter, and what the file holds.
  unfoldable pub open_in : Bool → Option String → List String → Disk → Option DiskPipelineCache
  open_in false key dir d = none
  open_in true none dir d = none
  open_in true (some key) dir d = some (record {
    file = dir ++ "gpu-info" ∷ "wgpu-pipelines" ∷ key ∷ [];
    saved = map_option fingerprint d.target;
  })

-- The registry of the process: which device has which of the opened caches, by its position.
pub record Caches (D : Type 0) : Type 0 where
  pub known : List (D × Option ℕ)
  pub opened : List DiskPipelineCache

module _ {D : Type 0} (device_eq : D → D → Bool) where
  abbrev pub find_known : D → List (D × Option ℕ) → Option (Option ℕ)
  find_known device [] = none
  find_known device ((known, cache) ∷ rest) =
      let later = find_known device rest in if device_eq known device then some cache else later

  abbrev pub register : D → Caches D → Option DiskPipelineCache → Option ℕ × Caches D
  register device s none = (none, record s { known = s.known ++ (device, none) ∷ [] })
  register device s (some c) = (
    some (length s.opened),
    record {
      known = s.known ++ (device, some (length s.opened)) ∷ [];
      opened = s.opened ++ c ∷ [];
    },
  )

  abbrev pub found_or :
      D → Caches D → Option DiskPipelineCache → Option (Option ℕ) → Option ℕ × Caches D
  found_or device s opened (some cache) = (cache, s)
  found_or device s opened none = register device s opened

  -- `pipeline_cache`; `opened` is what `open` gives now.
  unfoldable pub pipeline_cache : D → Option DiskPipelineCache → Caches D → Option ℕ × Caches D
  pipeline_cache device opened s = found_or device s opened (find_known device s.known)
