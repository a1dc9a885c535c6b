-- ===== src/Model.antt =====
-- Reports of adapters (src/model.rs): the names it gives, the primary adapter, the counts of samples.
-- The adapter's own answers are arguments.
pub mod Json
pub mod Diff
pub mod Same
pub mod Equality
pub mod Returns
pub mod Tests
use Prim.Native.String.{String}
use gpu_info_rs.Prelude.{
  ℕ, ◌%◌, Bool, true, false, ◌||◌, Option, none, some, List, [], ◌∷◌, map, if◌then◌else◌, ◌==◌,
  string_eq,
}

-- wgpu's `DeviceType` and `ShaderModel`.
pub data DeviceType : Type 0 where
  other integrated_gpu discrete_gpu virtual_gpu cpu : DeviceType

pub data ShaderModel : Type 0 where
  sm2 sm4 sm5 : ShaderModel

unfoldable pub device_type_str : DeviceType → String
device_type_str other = "Other"
device_type_str integrated_gpu = "IntegratedGpu"
device_type_str discrete_gpu = "DiscreteGpu"
device_type_str virtual_gpu = "VirtualGpu"
device_type_str cpu = "Cpu"

unfoldable pub shader_model_str : ShaderModel → String
shader_model_str sm2 = "Sm2"
shader_model_str sm4 = "Sm4"
shader_model_str sm5 = "Sm5"

abbrev pub vendor_of_pci : ℕ → Option String
vendor_of_pci id =
    if id == 4318
    then some "NVIDIA"
    else if id == 4098 || id == 4130
    then some "AMD"
    else if id == 32902
    then some "Intel"
    else if id == 5045
    then some "ARM"
    else if id == 20803
    then some "Qualcomm"
    else if id == 4112
    then some "ImgTec"
    else if id == 4203
    then some "Apple"
    else if id == 5140
    then some "Microsoft"
    else none

unfoldable pub vendor_name : ℕ → Option String
vendor_name vendor = if vendor == 65541 then some "Mesa" else vendor_of_pci (vendor % 65536)

abbrev pub filter {ℓ} : {A : Type ℓ} → (A → Bool) → List A → List A
filter f [] = []
filter f (x ∷ xs) = let rest = filter f xs in if f x then x ∷ rest else rest

abbrev pub msaa_sample_counts : List ℕ
msaa_sample_counts = 1 ∷ 2 ∷ 4 ∷ 8 ∷ 16 ∷ []

-- The flags are wgpu's: which counts they support is a function.
unfoldable pub sample_counts_from_flags : (ℕ → Bool) → List ℕ
sample_counts_from_flags sample_count_supported =
    filter (λ n. n == 1 || sample_count_supported n) msaa_sample_counts

-- `AdapterReport`, as far as the primary adapter is chosen by it.
pub record AdapterReport : Type 0 where
  pub name : String
  pub backend : String
  pub device_type : String

-- `Iterator::find`.
abbrev pub find {ℓ} : {A : Type ℓ} → (A → Bool) → List A → Option A
find f [] = none
find f (x ∷ xs) = let rest = find f xs in if f x then some x else rest

abbrev pub first {ℓ} : {A : Type ℓ} → List A → Option A
first [] = none
first (x ∷ xs) = some x

abbrev pub or_else {ℓ} : {A : Type ℓ} → Option A → Option A → Option A
or_else none instead = instead
or_else (some x) instead = some x

abbrev summary_of : Option AdapterReport → String × String
summary_of none = ("unknown", "none")
summary_of (some a) = (a.name, a.backend)

unfoldable pub primary_summary : List AdapterReport → String × String
primary_summary adapters =
    summary_of
      (or_else (find (λ a. string_eq (a.device_type) "DiscreteGpu") adapters) (first adapters))
