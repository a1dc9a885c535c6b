-- ===== src/Stats/Nvml.antt =====
-- NVML's devices (src/stats/nvml.rs). An entry point that fails, or that the library lacks, answers
-- `none`.
use gpu_info_rs.Prelude.{
  ℕ, zero, suc, Bool, false, not, ◌&&◌, ◌||◌, Option, none, some, List, [], ◌∷◌, ltb, ◌==◌,
  if◌then◌else◌, is_some, map_option, and_some,
}
use gpu_info_rs.Stats.Floats.{Float}
use gpu_info_rs.Stats.Names.{Name, name_eq, normalise, c_str}

-- What the entry points answer for a device. The management limit and the memory are of symbols that
-- an old library may lack.
pub record Counters : Type 0 where
  pub name : Option Name
  pub temperature : Option ℕ
  pub power_usage : Option ℕ
  pub power_limit : Option ℕ
  pub power_mgmt_limit : Option ℕ
  pub fan_speed : Option ℕ
  pub clock_graphics : Option ℕ
  pub clock_mem : Option ℕ
  pub utilization : Option (ℕ × ℕ)
  -- Total and used bytes.
  pub memory : Option (ℕ × ℕ)

abbrev pub filled : Option Name → Option Name
filled none = none
filled (some []) = none
filled (some (c ∷ cs)) = some (c ∷ cs)

abbrev pub memory_of : Option (ℕ × ℕ) → Option (ℕ × ℕ)
memory_of none = none
memory_of (some (total, used)) = if ltb 0 total then some (total, used) else none

abbrev pub or_limit : Option ℕ → Option ℕ → Option ℕ
or_limit none instead = instead
or_limit (some l) instead = some l

module _ (fl : Float) where
  pub record NvmlStats : Type 0 where
    pub util_pct : Option fl.F
    pub mem_used_bytes : Option ℕ
    pub mem_total_bytes : Option ℕ
    pub temp_c : Option fl.F
    pub power_w : Option fl.F
    pub power_limit_w : Option fl.F
    pub fan_pct : Option fl.F
    pub clock_core_mhz : Option ℕ
    pub clock_mem_mhz : Option ℕ
    pub mem_bus_pct : Option fl.F
    pub driver : Option Name

  -- The library: its driver version, and the devices by index, where it gives a handle.
  pub record Nvml : Type 0 where
    pub driver : Option Name
    pub count : Option ℕ
    pub devices : ℕ → Option Counters

  -- `NvmlStats::is_empty`: equal to the default, in which nothing is known.
  unfoldable pub is_empty : NvmlStats → Bool
  is_empty s = not (
      is_some s.util_pct
      || is_some s.mem_used_bytes
      || is_some s.mem_total_bytes
      || is_some s.temp_c
      || is_some s.power_w
      || is_some s.power_limit_w
      || is_some s.fan_pct
      || is_some s.clock_core_mhz
      || is_some s.clock_mem_mhz
      || is_some s.mem_bus_pct
      || is_some s.driver)

  abbrev watts : ℕ → fl.F
  watts value = fl.thousandth (fl.of value)

  abbrev percent : ℕ → fl.F
  percent value = fl.clamp_percent (fl.of value)

  -- `driver_version`.
  abbrev pub driver_version : Nvml → Option Name
  driver_version lib = filled (map_option c_str lib.driver)

  abbrev pub sampled : Nvml → Counters → NvmlStats
  sampled lib d = record {
    util_pct = map_option (λ r. percent (r.0)) d.utilization;
    mem_used_bytes = map_option (λ m. m.1) (memory_of d.memory);
    mem_total_bytes = map_option (λ m. m.0) (memory_of d.memory);
    temp_c = map_option fl.of d.temperature;
    power_w = map_option watts d.power_usage;
    power_limit_w = map_option watts (or_limit d.power_limit d.power_mgmt_limit);
    fan_pct = map_option fl.of d.fan_speed;
    clock_core_mhz = d.clock_graphics;
    clock_mem_mhz = d.clock_mem;
    mem_bus_pct = map_option (λ r. percent (r.1)) d.utilization;
    driver = driver_version lib;
  }

  unfoldable pub sample_device : Nvml → Counters → Option NvmlStats
  sample_device lib d = if is_empty (sampled lib d) then none else some (sampled lib d)

  -- `name_of`.
  abbrev pub name_of : Counters → Option Name
  name_of d = map_option c_str d.name

  abbrev pub is_wanted : Name → Counters → Bool
  is_wanted wanted d = elim (name_of d) [ none ↦ false | some n ↦ name_eq (normalise n) wanted ]

  -- `first.get_or_insert(device)`.
  abbrev pub or_insert : Option Counters → Counters → Option Counters
  or_insert none d = some d
  or_insert (some first) d = some first

  -- The end of the search: a single device serves whatever its name.
  abbrev pub single : ℕ → ℕ → Option Counters → Option Counters
  single count ordinal first = if count == 1 && ordinal == 0 then first else none

  -- The loop over the devices: `left` of them from `index` on.
  unfoldable pub match_loop :
      (ℕ → Option Counters)
      → Name
      → (ordinal : ℕ) → (left index : ℕ) → (first : Option Counters) → (seen : ℕ)
      → Option Counters × Option Counters
  match_loop devices wanted ordinal zero index first seen = (none, first)
  match_loop devices wanted ordinal (suc left) index first seen = elim (devices index) [
    | none ↦ match_loop devices wanted ordinal left (suc index) first seen
    | some d ↦
        let further =
          match_loop devices wanted ordinal left (suc index) (or_insert first d) (suc seen) in
        let other = match_loop devices wanted ordinal left (suc index) (or_insert first d) seen in
        if is_wanted wanted d
        then (if seen == ordinal then (some d, or_insert first d) else further)
        else other
  ]

  abbrev found_or_single : ℕ → ℕ → Option Counters × Option Counters → Option Counters
  found_or_single count ordinal (some d, first) = some d
  found_or_single count ordinal (none, first) = single count ordinal first

  unfoldable pub device_matching : Nvml → Name → ℕ → Option Counters
  device_matching lib adapter ordinal = and_some lib.count (λ count.
      found_or_single count ordinal
        (match_loop lib.devices (normalise adapter) ordinal count 0 none 0))

  -- `query_nth`; `none` is a missing library.
  unfoldable pub query_nth : Option Nvml → Name → ℕ → Option NvmlStats
  query_nth lib adapter ordinal =
      and_some lib (λ l. and_some (device_matching l adapter ordinal) (λ d. sample_device l d))

  abbrev named : (ℕ → Name) → ℕ → Option Name → Name
  named nvidia_gpu index none = nvidia_gpu index
  named nvidia_gpu index (some name) = name

  abbrev listed : Name → Option NvmlStats → List (Name × NvmlStats) → List (Name × NvmlStats)
  listed name none rest = rest
  listed name (some s) rest = (name, s) ∷ rest

  -- The loop of `query_all`; `nvidia_gpu` prints the name of an unnamed device.
  unfoldable pub list_devices : Nvml → (ℕ → Name) → (left index : ℕ) → List (Name × NvmlStats)
  list_devices lib nvidia_gpu zero index = []
  list_devices lib nvidia_gpu (suc left) index =
      let rest = list_devices lib nvidia_gpu left (suc index) in
      elim (lib.devices index) [
        | none ↦ rest
        | some d ↦ listed (named nvidia_gpu index (name_of d)) (sample_device lib d) rest
      ]

  abbrev of_count : Nvml → (ℕ → Name) → Option ℕ → List (Name × NvmlStats)
  of_count lib nvidia_gpu none = []
  of_count lib nvidia_gpu (some count) = list_devices lib nvidia_gpu count 0

  unfoldable pub query_all : Option Nvml → (ℕ → Name) → List (Name × NvmlStats)
  query_all none nvidia_gpu = []
  query_all (some lib) nvidia_gpu = of_count lib nvidia_gpu lib.count
