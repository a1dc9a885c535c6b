-- ===== src/Stats/Matching.antt =====
-- Which device of NVML is taken for an adapter (src/stats/nvml.rs).
use gpu_info_rs.Prelude.{ℕ, zero, suc, Option, none, some, List, [], ◌∷◌, if◌then◌else◌}
use gpu_info_rs.Stats.Floats.{Float}
use gpu_info_rs.Stats.Names.{Name, normalise, name_eq, c_str}
use gpu_info_rs.Stats.Nvml.{Nvml, Counters}

module _ (fl : Float) where
  -- A device that has a name joins the others if its name, without the vendor's prefix, is the wanted.
  abbrev if_named : Name → Counters → Option Name → List Counters → List Counters
  if_named wanted d none rest = rest
  if_named wanted d (some n) rest = if name_eq (normalise (c_str n)) wanted then d ∷ rest else rest

  abbrev if_wanted : Name → Option Counters → List Counters → List Counters
  if_wanted wanted none rest = rest
  if_wanted wanted (some d) rest = if_named wanted d d.name rest

  -- The devices with a handle and the wanted name, in the order of their indices.
  abbrev pub wanted_devices : (ℕ → Option Counters) → Name → (left index : ℕ) → List Counters
  wanted_devices devices wanted zero index = []
  wanted_devices devices wanted (suc left) index =
      if_wanted wanted (devices index) (wanted_devices devices wanted left (suc index))

  -- The first device that has a handle.
  abbrev pub first_device :
      (ℕ → Option Counters) → (left index : ℕ) → Option Counters → Option Counters
  first_device devices left index (some d) = some d
  first_device devices zero index none = none
  first_device devices (suc left) index none = first_device devices left (suc index) (devices index)
