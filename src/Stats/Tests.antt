-- ===== src/Stats/Tests.antt =====
-- Readings of two equal cards and an integrated one (src/stats.rs), with whole numbers for fractions.
use Prim.Native.String.{String}
use gpu_info_rs.Prelude.{
  ℕ, ◌+◌, ◌/◌, ◌≡◌, refl, max, min, true, Option, none, some, List, [], ◌∷◌, ltb, ◌==◌,
  if◌then◌else◌,
}
use gpu_info_rs.Vram.{Luid}
use gpu_info_rs.Stats.Floats.{Float}
use gpu_info_rs.Stats.Names.{Name, normalise, c_str}
use gpu_info_rs.Stats.{ordinals}
use gpu_info_rs.Stats.Ordinals.{earlier, ordinals_count}
use gpu_info_rs.Stats.Nvml.{Nvml, Counters, device_matching, match_loop}
use gpu_info_rs.Stats.Windows.{
  Instance, engine_totals, engine_type, format_array, pdh_ok, more_data,
}

abbrev pub whole : Float
whole = record {
  F = ℕ;
  of = λ n. n;
  divide = λ a b. a / b;
  is_positive = λ n. ltb 0 n;
  clamp_unit = λ n. min n 1;
  clamp_percent = λ n. min n 100;
  thousandth = λ n. n / 1000;
  Double = ℕ;
  zero_double = 0;
  plus = λ a b. a + b;
  maximum = λ a b. max a b;
  is_finite = λ n. true;
  to_percent = λ n. min n 100;
  to_bytes = λ n. n;
}

-- "NVIDIA A", "a" and "B".
abbrev card : Name
card = 78 ∷ 86 ∷ 73 ∷ 68 ∷ 73 ∷ 65 ∷ 32 ∷ 65 ∷ []

abbrev model : Name
model = 97 ∷ []

abbrev chip : Name
chip = 66 ∷ []

normalised : normalise card ≡ model
unfolding normalise
normalised = refl

numbered : ordinals [] (card ∷ chip ∷ card ∷ []) ≡ 0 ∷ 0 ∷ 1 ∷ []
unfolding ordinals
numbered = refl

ordinals_count_example :
    ordinals [] (card ∷ chip ∷ card ∷ []) ≡ earlier [] (card ∷ chip ∷ card ∷ [])
ordinals_count_example = ordinals_count (card ∷ chip ∷ card ∷ [])

abbrev device : Option Name → ℕ → Counters
device name used = record {
  name = name;
  temperature = some 60;
  power_usage = none;
  power_limit = none;
  power_mgmt_limit = none;
  fan_speed = none;
  clock_graphics = none;
  clock_mem = none;
  utilization = some (7, 8);
  memory = some (100, used);
}

abbrev devices : ℕ → Option Counters
devices i = if i == 1 then some (device (some chip) 1) else some (device (some card) i)

abbrev library : Nvml whole
library = record { driver = none; count = some 3; devices = devices }

second : device_matching whole library card 1 ≡ some (device (some card) 2)
unfolding device_matching match_loop normalise c_str
second = refl

abbrev luid : Luid
luid = record { high = 0; low = 7 }

abbrev engine : String → ℕ → Instance whole
engine name value = record { tagged = λ l. true; engine = some name; value = value }

abbrev load : List (Instance whole)
load = engine "3D" 30 ∷ engine "Copy" 20 ∷ engine "3D" 15 ∷ engine "New" 1 ∷ []

totals : engine_totals whole load [] ≡ ("3D", 45) ∷ ("Copy", 20) ∷ ("other", 1) ∷ []
unfolding engine_totals engine_type
totals = refl

grown : format_array 0 (λ size. if size == 64 then pdh_ok 3 else more_data 64) ≡ (some 3, 64)
unfolding format_array
grown = refl
