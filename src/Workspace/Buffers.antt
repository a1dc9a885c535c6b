-- ===== src/Workspace/Buffers.antt =====
-- The buffers of src/pool.rs: their key, and what a workspace uses of wgpu's buffers and usage flags.
use gpu_info_rs.Prelude.{ℕ, Bool, true, ◌&&◌, ◌==◌, ◌≡◌}
use gpu_info_rs.Pool.Interface.{Pooled}

pub record BufferKey (Usages : Type 0) : Type 0 where
  pub size : ℕ
  pub usage : Usages

pub record Wgpu : Type 1 where
  pub Usages : Type 0
  pub usages_eq : Usages → Usages → Bool
  pub union : Usages → Usages → Usages
  pub copy_dst : Usages
  -- `contains(MAP_WRITE)`, `contains(COPY_DST)`, and `intersects(MAP_READ | MAP_WRITE)`.
  pub has_map_write : Usages → Bool
  pub has_copy_dst : Usages → Bool
  pub has_mapping : Usages → Bool
  pub Buffer : Type 0
  pub size : Buffer → ℕ
  pub usage : Buffer → Usages
  -- What the device creates, unmapped, after as many creations before it.
  pub create_buffer : ℕ → BufferKey Usages → Buffer

-- A created buffer has the size and the usage that were asked for.
pub record Creates (w : Wgpu) : Type 0 where
  pub size-create : (n : ℕ) (k : BufferKey w.Usages) → w.size (w.create_buffer n k) ≡ k.size
  pub usage-create :
      (n : ℕ) (k : BufferKey w.Usages) → w.usages_eq (w.usage (w.create_buffer n k)) k.usage ≡ true

abbrev pub key_eq : (w : Wgpu) → BufferKey w.Usages → BufferKey w.Usages → Bool
key_eq w a b = (a.size == b.size) && w.usages_eq a.usage b.usage

-- `impl Pooled for wgpu::Buffer`.
abbrev pub pooled : (w : Wgpu) → Pooled w.Buffer
pooled w = record {
  Key = BufferKey w.Usages;
  key_eq = key_eq w;
  key = λ b. record { size = w.size b; usage = w.usage b };
  bytes = w.size;
}
