-- ===== src/Vram/Drivers.antt =====
-- Reading used and budget bytes from the drivers (src/vram.rs, the `imp` modules). What a driver
-- answers is an argument.
use gpu_info_rs.Prelude.{
  ℕ, Bool, false, ◌&&◌, Option, none, some, List, [], ◌∷◌, ltb, if◌then◌else◌, ◌==◌, map_option,
  and_some,
}
use gpu_info_rs.Budget.{VramInfo}
use gpu_info_rs.Vram.{PhysId, luid, uuid, unknown, Luid, luid_bits}

-- One memory heap, with its rows of `heap_usage` and `heap_budget`.
pub record Heap : Type 0 where
  pub size : ℕ
  pub device_local : Bool
  pub usage : ℕ
  pub budget : ℕ

-- The scan for the largest device-local heap, which starts without one and at size zero.
unfoldable pub best_heap : List Heap → Option Heap → ℕ → Option Heap
best_heap [] best size = best
best_heap (h ∷ hs) best size =
    if h.device_local && ltb size h.size
    then best_heap hs (some h) h.size
    else best_heap hs best size

abbrev pub heap_info : Heap → Option VramInfo
heap_info h = if h.budget == 0 then none else some (record { used = h.usage; budget = h.budget })

-- `VramQuerier::query` of Vulkan.
unfoldable pub vulkan_query : List Heap → Option VramInfo
vulkan_query heaps = and_some (best_heap heaps none 0) heap_info

-- One adapter of DXGI's enumeration: its description, unless that call fails, and its
-- `IDXGIAdapter3`, unless the cast fails.
pub record DxgiAdapter (A : Type 0) : Type 0 where
  pub desc : Option Luid
  pub adapter3 : Option A

abbrev pub desc_is : ℕ → Option Luid → Bool
desc_is wanted none = false
desc_is wanted (some l) = luid_bits l == wanted

unfoldable pub match_dxgi_adapter : {A : Type 0} → List (DxgiAdapter A) → ℕ → Option A
match_dxgi_adapter [] wanted = none
match_dxgi_adapter (a ∷ rest) wanted =
    if desc_is wanted a.desc then a.adapter3 else match_dxgi_adapter rest wanted

unfoldable pub luid_of : PhysId → Option ℕ
luid_of (luid l) = some l
luid_of (uuid u) = none
luid_of unknown = none

-- `vram_budget_adapter` of Windows: DXGI's list of adapters, unless there is no factory, and what
-- `QueryVideoMemoryInfo` answers for each.
unfoldable pub vram_budget_dxgi :
    {A : Type 0} → PhysId → Option (List (DxgiAdapter A)) → (A → Option VramInfo) → Option ℕ
vram_budget_dxgi id factory query = and_some (luid_of id) (λ l. and_some factory (λ adapters.
    and_some (match_dxgi_adapter adapters l)
      (λ adapter. map_option (λ i. VramInfo.budget i) (query adapter))))

-- `vram_budget_adapter` of Vulkan: the driver's heaps, unless the budget cannot be chained.
unfoldable pub vram_budget_vulkan : (chainable : Bool) → List Heap → Option ℕ
vram_budget_vulkan chainable heaps =
    if chainable then map_option (λ i. VramInfo.budget i) (vulkan_query heaps) else none
