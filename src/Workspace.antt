-- ===== src/Workspace.antt =====
-- `BufferWorkspace` (src/pool.rs): the buffers of one job, taken from the shared pool of the compute
-- device where the job runs on that device, and given back when the job is complete.
pub mod Buffers
pub mod Exact
pub mod Returning
mod Tests
use gpu_info_rs.Prelude.{
  ℕ, zero, suc, ◌%◌, Bool, true, false, not, ◌||◌, Option, none, some, List, [], ◌∷◌, ◌++◌, Result,
  ok, err, ◌==◌, if◌then◌else◌, length, u64_mod, and_some,
}
use gpu_info_rs.Pool.{ResourcePool, take, put}
use gpu_info_rs.Workspace.Buffers.{BufferKey, Wgpu, pooled}

pub data BufferWorkspaceError : Type 0 where
  allocation invalid_descriptor : BufferWorkspaceError

-- `wgpu::COPY_BUFFER_ALIGNMENT`.
abbrev pub copy_buffer_alignment : ℕ
copy_buffer_alignment = 4

module _ (w : Wgpu) where
  -- The descriptor of a buffer; labels are left out.
  pub record Descriptor : Type 0 where
    pub size : ℕ
    pub usage : w.Usages
    pub mapped_at_creation : Bool

  -- `pool` tells whether the workspace has the shared pool.
  pub record BufferWorkspace : Type 0 where
    pub pool : Bool
    pub held : List w.Buffer

  pub data Call : Type 0 where
    clear_buffer : w.Buffer → Call
    write_buffer : w.Buffer → List ℕ → Call

  -- The shared pool, how many buffers the device has created, and what was encoded or queued.
  pub record Gpu : Type 0 where
    pub idle : ResourcePool w.Buffer
    pub created : ℕ
    pub calls : List Call

  -- What an operation gives: its result, the workspace and the device.
  pub record Outcome : Type 0 where
    pub result : Result w.Buffer BufferWorkspaceError
    pub workspace : BufferWorkspace
    pub gpu : Gpu

  -- `new`: devices are addresses, and `device` is what `compute_device` gives.
  unfoldable pub new : Option ℕ → ℕ → BufferWorkspace
  new none gpu = record { pool = false; held = [] }
  new (some device) gpu = record { pool = device == gpu; held = [] }

  abbrev pub retain : BufferWorkspace → w.Buffer → BufferWorkspace
  retain ws buffer = record ws { held = ws.held ++ buffer ∷ [] }

  abbrev pub create : BufferKey w.Usages → Gpu → w.Buffer × Gpu
  create key g = (w.create_buffer g.created key, record g { created = suc g.created })

  abbrev pub or_create :
      BufferKey w.Usages → Gpu → Option w.Buffer × ResourcePool w.Buffer → w.Buffer × Gpu
  or_create key g (some buffer, idle) = (buffer, record g { idle = idle })
  or_create key g (none, idle) = create key (record g { idle = idle })

  -- `ResourcePool<wgpu::Buffer>::take_buffer`.
  unfoldable pub take_buffer : BufferKey w.Usages → Gpu → w.Buffer × Gpu
  take_buffer key g = or_create key g (take (pooled w) g.idle key)

  -- The buffer of a key, from the pool where there is one.
  unfoldable pub obtain : Bool → BufferKey w.Usages → Gpu → w.Buffer × Gpu
  unfolding take_buffer
  obtain true key g = take_buffer key g
  obtain false key g = create key g

  abbrev pub key_of : ℕ → w.Usages → BufferKey w.Usages
  key_of size usage = record { size = size; usage = w.union usage w.copy_dst }

  abbrev pub refused : BufferWorkspaceError → BufferWorkspace → Gpu → Outcome
  refused e ws g = record { result = err e; workspace = ws; gpu = g }

  abbrev pub retained : BufferWorkspace → w.Buffer × Gpu → Outcome
  retained ws (buffer, g) = record { result = ok buffer; workspace = retain ws buffer; gpu = g }

  abbrev pub refuses : Descriptor → Bool
  refuses d =
      d.mapped_at_creation
      || w.has_map_write d.usage
      || d.size == 0
      || not (d.size % copy_buffer_alignment == 0)

  -- `checkout`; `reserved` tells whether `try_reserve` succeeds.
  unfoldable pub checkout : Bool → Descriptor → BufferWorkspace → Gpu → Outcome
  checkout reserved d ws g =
      if refuses d
      then refused invalid_descriptor ws g
      else if reserved
      then retained ws (obtain ws.pool (key_of d.size d.usage) g)
      else refused allocation ws g

  abbrev pub called : Call → Gpu → Gpu
  called c g = record g { calls = g.calls ++ c ∷ [] }

  abbrev pub cleared : Outcome → Result w.Buffer BufferWorkspaceError → Outcome
  cleared o (ok buffer) = record o { gpu = called (clear_buffer buffer) o.gpu }
  cleared o (err e) = o

  unfoldable pub zeroed_buffer : Bool → Descriptor → BufferWorkspace → Gpu → Outcome
  unfolding checkout
  zeroed_buffer reserved d ws g = let o = checkout reserved d ws g in cleared o o.result

  unfoldable pub output_buffer : Bool → Descriptor → BufferWorkspace → Gpu → Outcome
  unfolding checkout
  output_buffer = checkout

  abbrev pub refuses_upload : List ℕ → w.Usages → Bool
  refuses_upload contents usage =
      length contents == 0
      || not (length contents % copy_buffer_alignment == 0)
      || w.has_mapping usage

  abbrev pub written : List ℕ → w.Buffer × Gpu → w.Buffer × Gpu
  written contents (buffer, g) = (buffer, called (write_buffer buffer contents) g)

  unfoldable pub upload : Bool → List ℕ → w.Usages → BufferWorkspace → Gpu → Outcome
  upload reserved contents usage ws g =
      if refuses_upload contents usage
      then refused invalid_descriptor ws g
      else if reserved
      then retained ws (written contents (obtain ws.pool (key_of (length contents) usage) g))
      else refused allocation ws g

  -- `overwrite_slice`, with the bytes of the contents.
  unfoldable pub overwrite_slice :
      w.Buffer → List ℕ → Gpu → Result (Unit {0}) BufferWorkspaceError × Gpu
  overwrite_slice buffer bytes g =
      if not (length bytes == w.size buffer)
        || not (w.has_copy_dst (w.usage buffer))
        || not (length bytes % copy_buffer_alignment == 0)
      then (err invalid_descriptor, g)
      else (ok tt, called (write_buffer buffer bytes) g)

  -- How each `put` goes: whether its two reservations of memory succeed, and what other threads do
  -- meanwhile.
  pub record Fate : Type 0 where
    pub reserved : Bool
    pub reserved' : Bool
    pub others : ℕ → ResourcePool w.Buffer → ResourcePool w.Buffer

  -- The loop of `recycle`; `none` is a panic.
  unfoldable pub put_all :
      (ℕ → Fate) → List w.Buffer → ResourcePool w.Buffer → Option (ResourcePool w.Buffer)
  put_all fates [] q = some q
  put_all fates (buffer ∷ held) q =
      let f = fates 0 in
      and_some (put (pooled w) f.reserved f.reserved' f.others buffer q)
        (put_all (λ k. fates (suc k)) held)

  unfoldable pub recycle : (ℕ → Fate) → BufferWorkspace → Gpu → Option Gpu
  unfolding put_all
  recycle fates ws g =
      if ws.pool
      then and_some (put_all fates ws.held g.idle) (λ idle. some (record g { idle = idle }))
      else some g
