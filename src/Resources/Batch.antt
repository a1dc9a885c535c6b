-- ===== src/Resources/Batch.antt =====
-- `Prepared`, `Batch` and the upload of a staging buffer (src/resources.rs). A slot's owner is shared
-- through an `Arc`: here a batch owns it until it transfers it.
use gpu_info_rs.Prelude.{
  ℕ, Bool, true, false, not, ◌||◌, Option, none, some, map, Result, ok, err, ltb, ◌==◌,
  if◌then◌else◌, checked_add, get_elem?, set,
}
use gpu_info_rs.Wait.Error.{WaitError}
use gpu_info_rs.Wait.Validation.{FuturePoll}
use gpu_info_rs.Wait.Submission.{Checked, poll_checked}
use gpu_info_rs.Resources.Wgpu.{Wgpu}
use gpu_info_rs.Resources.Spec.{
  ResourceError, gpu, slot, upload_state, BufferSpec, Spec, buffer, texture, staging,
  is_multiple_of,
}
use gpu_info_rs.Resources.Prepare.{Owned, Slots}

-- The end of the written range, if it is a `u64`.
abbrev pub beyond : Option ℕ → ℕ → Bool
beyond none size = true
beyond (some end) size = ltb size end

module _ (w : Wgpu) (Native : Type 0) (spec_eq : Spec w → Spec w → Bool)
    (create : Spec w → Native) where
  abbrev pub Batch : Type 0
  Batch = Slots w Native spec_eq create

  abbrev pub accept :
      Option (Owned w Native spec_eq create) → Option (Owned w Native spec_eq create)
  accept none = none
  accept (some o) = some (record o { healthy = true })

  -- `Batch::accepted`: every owner may be reused from now on.
  unfoldable pub accepted : Batch → Batch
  accepted slots = map accept slots

  -- The result of a checked operation that may itself have failed.
  abbrev pub flattened :
      Result (Result Batch (ResourceError w)) WaitError → Result Batch (ResourceError w)
  flattened (err e) = err (gpu e)
  flattened (ok (err e)) = err e
  flattened (ok (ok slots)) = ok (accepted slots)

  abbrev ready :
      Option (Result (Result Batch (ResourceError w)) WaitError)
      → Option (Result Batch (ResourceError w))
  ready none = none
  ready (some r) = some (flattened r)

  -- `Prepared::poll`; `none` is `Poll::Pending`.
  unfoldable pub poll_prepared :
      {F : Type 0}
      → (F → FuturePoll F)
      → Checked F (Result Batch (ResourceError w))
      → Option (Result Batch (ResourceError w)) × Checked F (Result Batch (ResourceError w))
  poll_prepared poll_future c = let (r, c') = poll_checked poll_future c in (ready r, c')

  abbrev pub is_buffer : Spec w → Bool
  is_buffer (buffer s) = true
  is_buffer (texture s) = false

  abbrev pub is_texture : Spec w → Bool
  is_texture s = not (is_buffer s)

  abbrev pub handed :
      Bool
      → ℕ
      → Batch
      → Owned w Native spec_eq create
      → Result (Owned w Native spec_eq create) (ResourceError w) × Batch
  handed true index slots o = (ok o, set slots index none)
  handed false index slots o = (err slot, slots)

  abbrev pub from_slot :
      (Spec w → Bool)
      → ℕ
      → Batch
      → Option (Option (Owned w Native spec_eq create))
      → Result (Owned w Native spec_eq create) (ResourceError w) × Batch
  from_slot kind index slots none = (err slot, slots)
  from_slot kind index slots (some none) = (err slot, slots)
  from_slot kind index slots (some (some o)) =
      handed (kind o.allocation.resource.spec) index slots o

  unfoldable pub take_slot :
      (Spec w → Bool) → Batch → ℕ → Result (Owned w Native spec_eq create) (ResourceError w) × Batch
  take_slot kind slots index = from_slot kind index slots (get_elem? slots index)

  -- `Batch::buffer` and `Batch::texture`.
  abbrev pub take_buffer :
      Batch → ℕ → Result (Owned w Native spec_eq create) (ResourceError w) × Batch
  take_buffer = take_slot is_buffer

  abbrev pub take_texture :
      Batch → ℕ → Result (Owned w Native spec_eq create) (ResourceError w) × Batch
  take_texture = take_slot is_texture

  -- `Owned::taint`.
  unfoldable pub taint : Owned w Native spec_eq create → Owned w Native spec_eq create
  taint o = record o { healthy = false }

module _ (w : Wgpu) where
  abbrev pub refuses_upload :
      (owners : ℕ) → BufferSpec w → (mapped : Bool) → (offset length : ℕ) → Bool
  refuses_upload owners s mapped offset length =
      not (owners == 1)
      || not (staging w s)
      || not mapped
      || not (is_multiple_of offset w.map_alignment)
      || length == 0
      || not (is_multiple_of length w.copy_buffer_alignment)
      || beyond (checked_add offset length) s.size

  -- `Buffer::upload` of `length` bytes, with the number of owners, what wgpu says of the mapped range
  -- and whether the buffer is mapped; it returns whether it then is.
  unfoldable pub upload :
      (owners : ℕ)
      → BufferSpec w
      → (mapped : Bool) → (offset length : ℕ) → Result (Unit {0}) (ResourceError w)
      → Result (Unit {0}) (ResourceError w) × Bool
  upload owners s mapped offset length range =
      if refuses_upload owners s mapped offset length
      then (err upload_state, mapped)
      else elim range [ err e ↦ (err e, mapped) | ok _ ↦ (ok tt, false) ]
