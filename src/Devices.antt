-- ===== src/Devices.antt =====
-- The devices of the process (src/lib.rs, src/compute_vk.rs): which adapter and device each of them is
-- negotiated on, once, and when Auto computes on the CPU. The texts of reasons are left out, but for the
-- name of an adapter. A `Device` stands for the device with its queue (and a compute device's Vulkan parts);
-- the instance is left out.
pub mod Once
mod Tests
use Prim.Native.String.{String}
use gpu_info_rs.Prelude.{
  ℕ, zero, suc, Bool, true, false, not, ◌&&◌, Option, none, some, List, [], ◌∷◌, Result, ok, err,
  ltb, leb, ◌==◌, if◌then◌else◌, and_some,
}
use gpu_info_rs.Model.{DeviceType, cpu}

-- `VkQueueFamilyProperties`, with the flag of optical flow.
pub record QueueFamily : Type 0 where
  pub queue_count : ℕ
  pub optical_flow_nv : Bool

-- The search from a family of the given index on.
abbrev pub family_from : ℕ → List QueueFamily → ℕ → Option ℕ
family_from index [] wgpu_family = none
family_from index (family ∷ rest) wgpu_family =
    let later = family_from (suc index) rest wgpu_family in
    if not (index == wgpu_family) && ltb 0 family.queue_count && family.optical_flow_nv
    then some index
    else later

unfoldable pub optical_flow_family : List QueueFamily → ℕ → Option ℕ
optical_flow_family families wgpu_family = family_from 0 families wgpu_family

-- `vk::API_VERSION_1_3`.
abbrev pub api_version_1_3 : ℕ
api_version_1_3 = 4206592

unfoldable pub wants_optical_flow : (extension feature : Bool) → Option ℕ → ℕ → Option ℕ
wants_optical_flow extension feature family api =
    if extension && feature && leb api_version_1_3 api then family else none

abbrev pub is_cpu : DeviceType → Bool
is_cpu cpu = true
is_cpu _ = false

-- What is used of wgpu's adapters, devices and features, and of the Vulkan half of a shared device.
pub record Wgpu : Type 1 where
  pub Adapter : Type 0
  pub Device : Type 0
  pub Vulkan : Type 0
  pub Features : Type 0
  pub device_type : Adapter → DeviceType
  pub name : Adapter → String
  pub features : Adapter → Features
  -- `&` of features, and `stable_features()`.
  pub both : Features → Features → Features
  pub stable : Features

-- Why there is no compute device, or why Auto uses the CPU.
pub data Reason : Type 0 where
  not_pinned no_adapter no_device : Reason
  software : String → Reason

module _ (w : Wgpu) where
  -- What the machine answers at one time: whether the module can be pinned, its high-performance adapter,
  -- and the devices that can be opened on an adapter with features.
  pub record Machine : Type 0 where
    pub pinned : Bool
    pub adapter : Option w.Adapter
    pub open_shared : w.Adapter → w.Features → Option (w.Device × w.Vulkan)
    pub request_device : w.Adapter → w.Features → Option w.Device
    pub open_compute : w.Adapter → w.Features → Option w.Device

  pub record SharedGpu : Type 0 where
    pub device : w.Device
    pub adapter : w.Adapter
    pub vulkan : Option w.Vulkan

  pub record ComputeGpu : Type 0 where
    pub device : w.Device
    pub adapter : w.Adapter

  -- The `OnceLock`s of the process.
  pub record Statics : Type 0 where
    pub shared : Option (Option SharedGpu)
    pub compute : Option (Result ComputeGpu Reason)
    pub auto : Option (Result ComputeGpu Reason)

  abbrev pub request_max_device : Machine → w.Adapter → w.Features → Option w.Device
  request_max_device m adapter extra = m.request_device adapter (w.both extra (w.features adapter))

  abbrev pub with_vulkan : w.Adapter → w.Device × w.Vulkan → SharedGpu
  with_vulkan adapter (device, vulkan) = record {
    device = device;
    adapter = adapter;
    vulkan = some vulkan;
  }

  abbrev pub ordinary : w.Adapter → w.Device → SharedGpu
  ordinary adapter device = record { device = device; adapter = adapter; vulkan = none }

  -- The device of both halves, else the ordinary one.
  abbrev pub shared_of : Machine → w.Adapter → Option (w.Device × w.Vulkan) → Option SharedGpu
  shared_of m adapter (some opened) = some (with_vulkan adapter opened)
  shared_of m adapter none =
      and_some (request_max_device m adapter w.stable) (λ device. some (ordinary adapter device))

  unfoldable pub negotiate_shared : Machine → Option SharedGpu
  negotiate_shared m =
      if m.pinned
      then and_some m.adapter (λ adapter.
        shared_of m adapter (m.open_shared adapter (w.both w.stable (w.features adapter))))
      else none

  abbrev pub compute_on : w.Adapter → Option w.Device → Result ComputeGpu Reason
  compute_on adapter none = err no_device
  compute_on adapter (some device) = ok (record { device = device; adapter = adapter })

  abbrev pub compute_of : Machine → Option w.Adapter → Result ComputeGpu Reason
  compute_of m none = err no_adapter
  compute_of m (some adapter) =
      compute_on adapter (m.open_compute adapter (w.both w.stable (w.features adapter)))

  unfoldable pub negotiate_compute : Machine → Result ComputeGpu Reason
  negotiate_compute m = if m.pinned then compute_of m m.adapter else err not_pinned

  -- `OnceLock::get_or_init`.
  abbrev pub get_or_init {ℓ} : {A : Type ℓ} → Option A → A → A
  get_or_init (some a) init = a
  get_or_init none init = init

  unfoldable pub shared_device : Machine → Statics → Option SharedGpu × Statics
  unfolding negotiate_shared
  shared_device m s =
      let gpu = get_or_init s.shared (negotiate_shared m) in (gpu, record s { shared = some gpu })

  unfoldable pub compute_device_status : Machine → Statics → Result ComputeGpu Reason × Statics
  unfolding negotiate_compute
  compute_device_status m s =
      let gpu = get_or_init s.compute (negotiate_compute m) in
      (gpu, record s { compute = some gpu })

  unfoldable pub software_reason : w.Adapter → Option Reason
  software_reason adapter =
      if is_cpu (w.device_type adapter) then some (software (w.name adapter)) else none

  abbrev pub unless_software : ComputeGpu → Option Reason → Result ComputeGpu Reason
  unless_software gpu none = ok gpu
  unless_software gpu (some reason) = err reason

  abbrev pub hardware : Result ComputeGpu Reason → Result ComputeGpu Reason
  hardware (err e) = err e
  hardware (ok gpu) = unless_software gpu (software_reason gpu.adapter)

  abbrev pub auto_init : Result ComputeGpu Reason × Statics → Result ComputeGpu Reason × Statics
  auto_init (status, s) = (hardware status, record s { auto = some (hardware status) })

  abbrev pub auto_with :
      Machine → Statics → Option (Result ComputeGpu Reason) → Result ComputeGpu Reason × Statics
  auto_with m s (some cached) = (cached, s)
  auto_with m s none = auto_init (compute_device_status m s)

  unfoldable pub auto_compute_device : Machine → Statics → Result ComputeGpu Reason × Statics
  unfolding compute_device_status software_reason
  auto_compute_device m s = auto_with m s s.auto
