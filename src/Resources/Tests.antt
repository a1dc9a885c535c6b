-- ===== src/Resources/Tests.antt =====
-- Runs of src/resources.rs with a small vocabulary of flags: 1 is a staging buffer for writes, 2 one
-- for reads, and all others are usages of the device alone.
use gpu_info_rs.Prelude.{
  ℕ, ◌≡◌, ◌⊎◌, All, is_some, refl, Bool, true, false, none, some, [], ◌∷◌, ok, err, arith, ◌==◌,
  get_elem?, set, Option, if◌then◌else◌,
}
use gpu_info_rs.Pool.{with_limits, take, rposition}
use gpu_info_rs.Admission.{MemoryBudget, Reservation}
use gpu_info_rs.Resources.Wgpu.{Wgpu, Limits, d2}
use gpu_info_rs.Resources.Spec.{
  slot, BufferSpec, TextureSpec, Spec, buffer, buffer_bytes, bytes, normalized, reusable,
  texture_bytes,
}
use gpu_info_rs.Resources.Sizes.{Sized, texture_bytes-Sized}
use gpu_info_rs.Resources.Prepare.{Owned, checkout, create_all}
use gpu_info_rs.Resources.Funding.{Filled, create_all-Filled}
use gpu_info_rs.Resources.Batch.{is_buffer, is_texture, take_slot}
use gpu_info_rs.Wait.Error.{Outcome}
use gpu_info_rs.Resources.Recycle.{Held, Recycler, Room, collect, drop_owned}
use gpu_info_rs.Resources.Accounting.{Accounted, collect-Accounted, drop_owned-Accounted}
use gpu_info_rs.Resources.Transfer.{take_slot_once}

abbrev gpu : Wgpu
gpu = record {
  BufferUsages = ℕ;
  is_empty = λ u. u == 0;
  is_known = λ u. true;
  has_map_write = λ u. u == 1;
  has_map_read = λ u. u == 2;
  is_write_staging = λ u. u == 1;
  is_read_staging = λ u. u == 2;
  TextureUsages = ℕ;
  is_empty_texture = λ u. u == 0;
  is_known_texture = λ u. true;
  TextureFormat = ℕ;
  format_eq = λ f g. f == g;
  remove_srgb_suffix = λ f. f;
  block_copy_size = λ f. some 4;
  block_dimensions = λ f. (1, 1);
  max_mips = λ e d. 12;
  mip_level_size = λ e k d. record e { depth_or_array_layers = 1 };
  copy_buffer_alignment = 4;
  map_alignment = 8;
}

abbrev limits : Limits
limits = record {
  max_buffer_size = 1000;
  max_texture_dimension_1d = 100;
  max_texture_dimension_2d = 100;
  max_texture_dimension_3d = 100;
  max_texture_array_layers = 1;
}

abbrev image : TextureSpec gpu
image = record {
  size = record { width = 64; height = 32; depth_or_array_layers = 1 };
  dimension = d2;
  mip_level_count = 1;
  sample_count = 1;
  format = 7;
  usage = 3;
  view_format = none;
}

abbrev storage : BufferSpec gpu
storage = record { size = 16; usage = 8 }

abbrev stage : BufferSpec gpu
stage = record { size = 64; usage = 1 }

abbrev distinct : Spec gpu → Spec gpu → Bool
distinct s t = false

abbrev handle : Spec gpu → ℕ
handle s = 5

abbrev budget : MemoryBudget
budget = record {
  id = 1;
  usage = record { limit = some 100; reserved = 16; allocated = 20; peak = 60 };
}

abbrev reservation : Reservation
reservation = record { budget = 1; remaining = 16 }

abbrev owner : Owned gpu ℕ distinct handle
owner = record {
  allocation = record {
    resource = record { native = 5; spec = buffer storage; bytes = 16; mapped = false };
    charge = record { budget = 1; bytes = 16 };
  };
  healthy = true;
}

texture_bytes-Sized_example : Sized gpu image (texture_bytes gpu image limits)
texture_bytes-Sized_example =
    texture_bytes-Sized gpu image limits (λ k. omega arith) (λ block e. ground arith)

create_all-Filled_example : Filled gpu ℕ distinct handle budget (
    create_all gpu ℕ distinct handle limits
      (buffer storage ∷ [])
      (checkout gpu ℕ distinct handle limits (buffer storage ∷ []) 0 (with_limits 0 256)).1
      budget
      reservation)
unfolding checkout bytes buffer_bytes normalized reusable with_limits take rposition
create_all-Filled_example =
    create_all-Filled gpu ℕ distinct handle limits (buffer storage ∷ []) 0 16 (with_limits 0 256)
      budget reservation refl refl (omega arith) (omega arith)

take_slot_once_example :
    (is_buffer gpu ℕ distinct handle (buffer storage) ≡ true)
    × (get_elem? (some owner ∷ []) 0 ≡ some (some owner))
    × (none ∷ [] ≡ set (some owner ∷ []) 0 none)
    × (take_slot gpu ℕ distinct handle (is_texture gpu ℕ distinct handle) (none ∷ []) 0
        ≡ (err slot, none ∷ []))
unfolding take_slot
take_slot_once_example =
    take_slot_once gpu ℕ distinct handle (is_buffer gpu ℕ distinct handle)
      (is_texture gpu ℕ distinct handle) (some owner ∷ []) (none ∷ []) 0 owner refl

abbrev owners : ℕ
owners = 1

abbrev held : Held gpu ℕ distinct handle
held = owner.allocation

-- One idle buffer, one whose mapping is over, and 4 bytes in use.
abbrev recycler : Recycler gpu ℕ distinct handle
recycler = record {
  resources = record {
    memory = record {
      id = 1;
      usage = record { limit = some 100; reserved = 0; allocated = 36; peak = 60 };
    };
    loss = none;
    pool = record { slots = held ∷ []; bytes = 16; budget = 24; max_entries = 8 };
  };
  remaps = record { allocation = held; signal = 3 } ∷ [];
}

abbrev heard : ℕ → Option Outcome
heard signal = if signal == 3 then some (ok tt) else none

abbrev room : Room
room = record { remap = true; slots = true; last = true }

collect-Accounted_example :
    let r' = (collect gpu ℕ distinct handle heard true (λ k. room) recycler).1 in
    Accounted gpu ℕ distinct handle 4 r'
    × ((true ≡ false) × (r' ≡ recycler)
        ⊎ (true ≡ true) × All (λ m. is_some (heard m.signal) ≡ false) r'.remaps)
collect-Accounted_example =
    collect-Accounted gpu ℕ distinct handle heard true (λ k. room) 4 recycler (refl, omega arith)

abbrev tail : Owned gpu ℕ distinct handle
tail = owner

-- The same with another buffer of 16 bytes in use.
abbrev recycler_in_use : Recycler gpu ℕ distinct handle
recycler_in_use = record recycler {
  resources = record (recycler.resources) {
    memory = record {
      id = 1;
      usage = record { limit = some 100; reserved = 0; allocated = 52; peak = 60 };
    };
  };
}

drop_owned-Accounted_example :
    Accounted gpu ℕ distinct handle 4
      (drop_owned gpu ℕ distinct handle true room 9 tail recycler_in_use)
drop_owned-Accounted_example =
    drop_owned-Accounted gpu ℕ distinct handle true room 9 4 tail recycler_in_use
      (refl, omega arith)
