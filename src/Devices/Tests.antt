-- ===== src/Devices/Tests.antt =====
-- Runs of src/lib.rs with adapters that are their type, and devices that are numbers.
use gpu_info_rs.Prelude.{ℕ, ◌≡◌, refl, true, false, Option, none, some, List, [], ◌∷◌, ok, err}
use gpu_info_rs.Model.{DeviceType, discrete_gpu, cpu}
use gpu_info_rs.Devices.{
  optical_flow_family, wants_optical_flow, Wgpu, Machine, ComputeGpu, is_cpu, compute_device_status,
  negotiate_compute, auto_compute_device, software_reason, software,
}
use gpu_info_rs.Devices.Once.{Ask, asks_shared, asks_compute, fresh, after, auto_once}

abbrev wgpu : Wgpu
wgpu = record {
  Adapter = DeviceType;
  Device = ℕ;
  Vulkan = ℕ;
  Features = ℕ;
  device_type = λ a. a;
  name = λ a. "llvmpipe";
  features = λ a. 1;
  both = λ a b. a;
  stable = 1;
}

abbrev machine : Option DeviceType → ℕ → Machine wgpu
machine adapter n = record {
  pinned = true;
  adapter = adapter;
  open_shared = λ a f. some (n, 1);
  request_device = λ a f. none;
  open_compute = λ a f. some n;
}

abbrev before : List (Ask × Machine wgpu)
before = (asks_shared, machine (some discrete_gpu) 3) ∷ []

abbrev later : List (Ask × Machine wgpu)
later = (asks_compute, machine (some cpu) 5) ∷ []

auto_once_example :
    let first =
      auto_compute_device wgpu (machine (some discrete_gpu) 4) (after wgpu before (fresh wgpu)) in
    let s = after wgpu later first.1 in
    ((auto_compute_device wgpu (machine none 6) s).0 ≡ first.0)
    × ((gpu : ComputeGpu wgpu)
        → first.0 ≡ ok gpu
        → (is_cpu gpu.adapter ≡ false)
          × ((compute_device_status wgpu (machine none 6) s).0 ≡ ok gpu))
auto_once_example = auto_once wgpu before later (machine (some discrete_gpu) 4) (machine none 6)

rasterizer :
    (auto_compute_device wgpu (machine (some cpu) 4) (fresh wgpu)).0 ≡ err (software "llvmpipe")
unfolding auto_compute_device compute_device_status negotiate_compute software_reason
rasterizer = refl

-- The family of wgpu and one without queues are passed over.
third_family :
    optical_flow_family
      (record { queue_count = 4; optical_flow_nv = true }
        ∷ record { queue_count = 0; optical_flow_nv = true }
        ∷ record { queue_count = 1; optical_flow_nv = true }
        ∷ [])
      0
    ≡ some 2
unfolding optical_flow_family
third_family = refl

old_vulkan : wants_optical_flow true true (some 2) 4202496 ≡ none
unfolding wants_optical_flow
old_vulkan = refl
