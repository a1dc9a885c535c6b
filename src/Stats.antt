-- ===== src/Stats.antt =====
-- Live counters of GPUs (src/stats.rs). Numbers with a fraction are of types of their own, with the
-- operations that the source uses (`Floats`); names are texts of code points.
pub mod Floats
pub mod Names
pub mod Nvml
pub mod Ordinals
pub mod Matching
pub mod Windows
pub mod Engines
pub mod Adapters
pub mod Drm
pub mod Tests
use gpu_info_rs.Prelude.{
  ℕ, suc, Bool, true, false, not, ◌&&◌, Option, none, some, List, [], ◌∷◌, ◌++◌, map, if◌then◌else◌,
  ◌==◌, is_some,
}
use gpu_info_rs.Stats.Floats.{Float}
use gpu_info_rs.Stats.Names.{Name, name_eq, to_ascii_lowercase}
use gpu_info_rs.Stats.Nvml.{NvmlStats, query_nth}
use gpu_info_rs.Stats.Nvml.{Nvml as Library}

-- `s.name.clone().unwrap_or_default().to_ascii_lowercase()`.
abbrev pub key_of : Option Name → Name
key_of none = []
key_of (some name) = to_ascii_lowercase name

-- `*seen_by_name.entry(key).and_modify(|c| *c += 1).or_insert(0)`, with the map after it.
abbrev pub bump : Name → List (Name × ℕ) → ℕ × List (Name × ℕ)
bump key [] = (0, (key, 0) ∷ [])
bump key ((k, c) ∷ seen) =
    let (n, rest) = bump key seen in
    if name_eq k key then (suc c, (k, suc c) ∷ seen) else (n, (k, c) ∷ rest)

-- The ordinals of the adapters among those of their name.
unfoldable pub ordinals : List (Name × ℕ) → List Name → List ℕ
ordinals seen [] = []
ordinals seen (key ∷ keys) = let (n, seen') = bump key seen in n ∷ ordinals seen' keys

module _ (fl : Float) where
  pub record GpuStats : Type 0 where
    pub name : Option Name
    pub util_pct : Option fl.F
    pub mem_used_bytes : Option ℕ
    pub mem_total_bytes : Option ℕ
    pub mem_shared_bytes : Option ℕ
    pub unified : Bool
    pub temp_c : Option fl.F
    pub power_w : Option fl.F
    pub power_limit_w : Option fl.F
    pub fan_pct : Option fl.F
    pub clock_core_mhz : Option ℕ
    pub clock_mem_mhz : Option ℕ
    pub mem_bus_pct : Option fl.F
    pub driver : Option Name

  -- `GpuStats::default()`.
  abbrev pub default_stats : GpuStats
  default_stats = record {
    name = none;
    util_pct = none;
    mem_used_bytes = none;
    mem_total_bytes = none;
    mem_shared_bytes = none;
    unified = false;
    temp_c = none;
    power_w = none;
    power_limit_w = none;
    fan_pct = none;
    clock_core_mhz = none;
    clock_mem_mhz = none;
    mem_bus_pct = none;
    driver = none;
  }

  abbrev pub frac_of : Option ℕ → Option ℕ → Option fl.F
  frac_of none total = none
  frac_of (some used) none = none
  frac_of (some used) (some total) =
      if total == 0 then none else some (fl.clamp_unit (fl.divide (fl.of used) (fl.of total)))

  unfoldable pub mem_frac : GpuStats → Option fl.F
  mem_frac s = frac_of s.mem_used_bytes s.mem_total_bytes

  abbrev pub power_of : Option fl.F → Option fl.F → Option fl.F
  power_of none limit = none
  power_of (some used) none = none
  power_of (some used) (some limit) =
      if fl.is_positive limit then some (fl.clamp_unit (fl.divide used limit)) else none

  unfoldable pub power_frac : GpuStats → Option fl.F
  power_frac s = power_of s.power_w s.power_limit_w

  unfoldable pub is_empty : GpuStats → Bool
  is_empty s = not (is_some s.util_pct) && not (is_some s.mem_used_bytes)

  abbrev pub enriched : GpuStats → Option (NvmlStats fl) → GpuStats
  enriched s none = s
  enriched s (some n) = record s {
    temp_c = n.temp_c;
    power_w = n.power_w;
    power_limit_w = n.power_limit_w;
    fan_pct = n.fan_pct;
    clock_core_mhz = n.clock_core_mhz;
    clock_mem_mhz = n.clock_mem_mhz;
    mem_bus_pct = n.mem_bus_pct;
    driver = n.driver;
  }

  abbrev enrich_named : Option (Library fl) → GpuStats → Option Name → ℕ → GpuStats
  enrich_named lib s none ordinal = s
  enrich_named lib s (some name) ordinal = enriched s (query_nth fl lib name ordinal)

  unfoldable pub enrich_nth : Option (Library fl) → GpuStats → ℕ → GpuStats
  enrich_nth lib s ordinal = enrich_named lib s s.name ordinal

  abbrev enrich_list : Option (Library fl) → List GpuStats → List ℕ → List GpuStats
  enrich_list lib [] ns = []
  enrich_list lib (s ∷ rest) [] = s ∷ rest
  enrich_list lib (s ∷ rest) (n ∷ ns) = enrich_nth lib s n ∷ enrich_list lib rest ns

  -- `query_all` on Windows, from the adapters' readings.
  unfoldable pub query_all_windows : Option (Library fl) → List GpuStats → List GpuStats
  query_all_windows lib stats =
      enrich_list lib stats (ordinals [] (map (λ s. key_of (GpuStats.name s)) stats))

  abbrev pub from_nvml : Name × NvmlStats fl → GpuStats
  from_nvml (name, n) = record {
    name = some name;
    util_pct = n.util_pct;
    mem_used_bytes = n.mem_used_bytes;
    mem_total_bytes = n.mem_total_bytes;
    mem_shared_bytes = none;
    unified = false;
    temp_c = n.temp_c;
    power_w = n.power_w;
    power_limit_w = n.power_limit_w;
    fan_pct = n.fan_pct;
    clock_core_mhz = n.clock_core_mhz;
    clock_mem_mhz = n.clock_mem_mhz;
    mem_bus_pct = n.mem_bus_pct;
    driver = n.driver;
  }

  -- `query_all` on Linux: NVML's devices, then the cards of DRM.
  unfoldable pub query_all_linux : List (Name × NvmlStats fl) → List GpuStats → List GpuStats
  query_all_linux devices cards = map from_nvml devices ++ cards

  -- `query`.
  abbrev pub first_of : List GpuStats → Option GpuStats
  first_of [] = none
  first_of (s ∷ rest) = some s
