-- ===== src/Vram.antt =====
-- Which adapter is meant, and what its driver reports (src/vram.rs). What the drivers answer are
-- arguments: `none` where the backend is not the one asked for or a call fails.
pub mod Watch
pub mod Drivers
pub mod Cached
pub mod Heaps
pub mod Tests
use Prim.Native.String.{String}
use gpu_info_rs.Prelude.{
  ℕ, ◌+◌, ◌*◌, ◌/◌, ◌%◌, Bool, true, false, ◌&&◌, ◌||◌, Option, none, some, List, [], ◌∷◌, ltb, leb,
  if◌then◌else◌, ◌==◌, map_option, string_eq,
}

pub data PhysId : Type 0 where
  luid : ℕ → PhysId
  uuid : List ℕ → PhysId
  unknown : PhysId

-- The handle of an adapter is wgpu's.
pub record AdapterKey (H : Type 0) : Type 0 where
  pub adapter : H
  pub phys : PhysId

-- `LUID`: the bits of both halves.
pub record Luid : Type 0 where
  pub high : ℕ
  pub low : ℕ

-- `VkPhysicalDeviceProperties` and `VkPhysicalDeviceIDProperties`, as far as they are read.
pub record VulkanIds : Type 0 where
  pub api_version : ℕ
  pub luid_valid : Bool
  pub device_luid : List ℕ
  pub device_uuid : List ℕ

-- `(high << 32) | low` of two `u32`.
unfoldable pub luid_bits : Luid → ℕ
luid_bits l = l.high * 4294967296 + l.low

unfoldable pub dx12_luid : Option Luid → Option ℕ
dx12_luid desc = map_option luid_bits desc

-- `u64::from_le_bytes`.
abbrev pub from_le_bytes : List ℕ → ℕ
from_le_bytes [] = 0
from_le_bytes (b ∷ bs) = b + 256 * from_le_bytes bs

abbrev pub api_version_major : ℕ → ℕ
api_version_major v = v / 4194304 % 128

abbrev pub api_version_minor : ℕ → ℕ
api_version_minor v = v / 4096 % 1024

unfoldable pub vulkan_id : Option VulkanIds → Option PhysId
vulkan_id none = none
vulkan_id (some ids) =
    if (api_version_major ids.api_version == 1) && ltb (api_version_minor ids.api_version) 1
    then none
    else some
        (if ids.luid_valid then luid (from_le_bytes ids.device_luid) else uuid ids.device_uuid)

-- The targets of the build decide which of the two sources exist.
pub record Targets : Type 0 where
  pub windows : Bool
  pub vulkan : Bool

abbrev or_vulkan : Bool → Option PhysId → PhysId
or_vulkan true (some id) = id
or_vulkan true none = unknown
or_vulkan false id = unknown

abbrev or_luid : Bool → Option ℕ → PhysId → PhysId
or_luid true (some l) other = luid l
or_luid true none other = other
or_luid false l other = other

unfoldable pub phys_id : Targets → Option Luid → Option VulkanIds → PhysId
phys_id t desc ids = or_luid t.windows (dx12_luid desc) (or_vulkan t.vulkan (vulkan_id ids))

-- `AdapterKey::of`.
unfoldable pub of : {H : Type 0} → Targets → H → Option Luid → Option VulkanIds → AdapterKey H
of t adapter desc ids = record { adapter = adapter; phys = phys_id t desc ids }

abbrev pub bytes_eq : List ℕ → List ℕ → Bool
bytes_eq [] [] = true
bytes_eq [] (b ∷ bs) = false
bytes_eq (a ∷ rest) [] = false
bytes_eq (a ∷ rest) (b ∷ bs) = (a == b) && bytes_eq rest bs

-- The derived equalities.
abbrev pub phys_eq : PhysId → PhysId → Bool
phys_eq (luid a) (luid b) = a == b
phys_eq (uuid a) (uuid b) = bytes_eq a b
phys_eq unknown unknown = true
phys_eq (luid _) (uuid _) = false
phys_eq (luid _) unknown = false
phys_eq (uuid _) (luid _) = false
phys_eq (uuid _) unknown = false
phys_eq unknown (luid _) = false
phys_eq unknown (uuid _) = false

abbrev pub key_eq : {H : Type 0} → (H → H → Bool) → AdapterKey H → AdapterKey H → Bool
key_eq handle_eq a b = handle_eq a.adapter b.adapter && phys_eq a.phys b.phys

-- Whether the names list the extension.
abbrev pub lists_budget : List String → Bool
lists_budget [] = false
lists_budget (name ∷ names) = string_eq name "VK_EXT_memory_budget" || lists_budget names

unfoldable pub budget_chainable : ℕ → List String → Bool
budget_chainable v extensions =
    (ltb 1 (api_version_major v) || (api_version_major v == 1) && leb 1 (api_version_minor v))
    && lists_budget extensions
