-- ===== src/Workspace/Tests.antt =====
-- Runs of `BufferWorkspace` (src/pool.rs) with buffers that are their size and their usage.
use gpu_info_rs.Prelude.{
  ℕ, ◌+◌, ◌≡◌, refl, ◌⊎◌, true, false, some, [], ◌∷◌, arith, err, ◌==◌, ==_refl,
}
use gpu_info_rs.Pool.{ResourcePool}
use gpu_info_rs.Pool.Invariant.{IsValid}
use gpu_info_rs.Pool.Return.{holding}
use gpu_info_rs.Workspace.Buffers.{Wgpu, Creates, pooled}
use gpu_info_rs.Workspace.{
  BufferWorkspace, Descriptor, Gpu, new, obtain, checkout, recycle, overwrite_slice,
  invalid_descriptor, zeroed_buffer, clear_buffer,
}
use gpu_info_rs.Workspace.Returning.{calm, recycle-IsValid, recycle-holding}

-- The flags: 1 for `MAP_WRITE`, 8 for `COPY_DST`.
abbrev wgpu : Wgpu
wgpu = record {
  Usages = ℕ;
  usages_eq = λ a b. a == b;
  union = λ a b. a + b;
  copy_dst = 8;
  has_map_write = λ a. a == 1;
  has_copy_dst = λ a. a == 8;
  has_mapping = λ a. a == 1;
  Buffer = ℕ × ℕ;
  size = λ b. b.0;
  usage = λ b. b.1;
  create_buffer = λ n k. (k.size, k.usage);
}

abbrev creates : Creates wgpu
creates = record { size-create = λ n k. refl; usage-create = λ n k. ==_refl k.usage }

abbrev idle : ResourcePool (ℕ × ℕ)
idle = record { slots = (16, 12) ∷ []; bytes = 16; budget = 64; max_entries = 3 }

abbrev gpu : Gpu wgpu
gpu = record { idle = idle; created = 5; calls = [] }

idle-IsValid : IsValid (pooled wgpu) idle
idle-IsValid = record {
  counted = refl;
  within = omega arith;
  budget_fits = omega arith;
  entries = omega arith;
}

abbrev descriptor : Descriptor wgpu
descriptor = record { size = 16; usage = 4; mapped_at_creation = false }

abbrev workspace : BufferWorkspace wgpu
workspace = record { pool = true; held = (8, 12) ∷ (4, 12) ∷ [] }

recycle-IsValid_example :
    (g' : Gpu wgpu) × (recycle wgpu (calm wgpu) workspace gpu ≡ some g')
    × IsValid (pooled wgpu) g'.idle
    × (g'.calls ≡ [])
    × ((true ≡ true) ⊎ (g' ≡ gpu))
recycle-IsValid_example =
    recycle-IsValid wgpu (calm wgpu) workspace gpu (λ k j q v. (v, refl)) idle-IsValid

recycle-holding_example :
    recycle wgpu (calm wgpu) workspace gpu
    ≡ some (record gpu { idle = holding (pooled wgpu) ((16, 12) ∷ (8, 12) ∷ (4, 12) ∷ []) idle })
recycle-holding_example =
    recycle-holding wgpu workspace gpu refl idle-IsValid (omega arith) (omega arith)

-- A job of another device has no pool, and its buffer is new.
foreign :
    let o = zeroed_buffer wgpu true descriptor (new wgpu (some 3) 4) gpu in
    (o.workspace.pool ≡ false) × (o.gpu.created ≡ 6) × (o.gpu.calls ≡ clear_buffer (16, 12) ∷ [])
unfolding zeroed_buffer checkout obtain new
foreign = (refl, refl, refl)

odd_write : (overwrite_slice wgpu (3, 8) (1 ∷ 2 ∷ 3 ∷ []) gpu).0 ≡ err invalid_descriptor
unfolding overwrite_slice
odd_write = refl
