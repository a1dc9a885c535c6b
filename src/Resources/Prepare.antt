-- ===== src/Resources/Prepare.antt =====
-- `Resources::prepare` (src/resources.rs), which one thread runs: idle matches are checked out, all
-- misses are reserved at once, then created. `create` is the device's; `spec_eq` is the derived
-- equality of descriptors.
use Prim.Native.String.{String}
use gpu_info_rs.Prelude.{
  ℕ, ◌-◌, Bool, true, false, Option, none, some, List, [], ◌∷◌, Result, ok, err, ◌>>=◌, ok_or,
  if◌then◌else◌, checked_add, saturating_add, saturating_sub, length, take,
}
use gpu_info_rs.Pool.Interface.{Pooled}
use gpu_info_rs.Pool.{ResourcePool, evict}
use gpu_info_rs.Pool
use gpu_info_rs.Pool.Eviction.{quiet}
use gpu_info_rs.Admission.{
  MemoryBudget, Reservation, Charged, charged, AdmissionError, capacity, reserve, charge,
  drop_charge, drop_reservation,
}
use gpu_info_rs.Wait.Error.{device_lost}
use gpu_info_rs.Resources.Wgpu.{Wgpu, Limits}
use gpu_info_rs.Resources.Spec.{
  ResourceError, admission, gpu, host_allocation, Spec, buffer, texture, staging, normalized,
  reusable, bytes,
}
use gpu_info_rs.Resources.Spec

module _ (w : Wgpu) (Native : Type 0) (spec_eq : Spec w → Spec w → Bool)
    (create : Spec w → Native) where
  pub record Allocation : Type 0 where
    pub native : Native
    pub spec : Spec w
    pub bytes : ℕ
    pub mapped : Bool

  abbrev pub allocations : Pooled Allocation
  allocations = record { Key = Spec w; key_eq = spec_eq; key = λ a. a.spec; bytes = λ a. a.bytes }

  pub record Owned : Type 0 where
    pub allocation : Charged Allocation
    pub healthy : Bool

  pub record Resources : Type 0 where
    pub memory : MemoryBudget
    pub loss : Option String
    pub pool : ResourcePool (Charged Allocation)

  abbrev pub Slots : Type 0
  Slots = List (Option Owned)

  -- The first loop: every descriptor has a size.
  unfoldable pub check_all : Limits → List (Spec w) → Result (Unit {0}) (ResourceError w)
  check_all limits [] = ok tt
  check_all limits (s ∷ specs) = bytes w s limits >>= λ n. check_all limits specs

  abbrev pub owned : Bool → Option (Charged Allocation) → Option Owned
  owned healthy none = none
  owned healthy (some c) = some (record { allocation = c; healthy = healthy })

  abbrev pub take_match :
      Spec w
      → ResourcePool (Charged Allocation)
      → Option (Charged Allocation) × ResourcePool (Charged Allocation)
  take_match s pool = if reusable w s then Pool.take (charged allocations) pool s else (none, pool)

  -- The missing bytes after one more descriptor.
  abbrev pub lacking :
      Limits → Spec w → ℕ → Option (Charged Allocation) → Result ℕ (ResourceError w)
  lacking limits s missing (some c) = ok missing
  lacking limits s missing none =
      bytes w s limits >>= λ n. ok_or (checked_add missing n) Spec.overflow

  abbrev pub extend :
      Result ℕ (ResourceError w)
      → Option Owned
      → (ℕ → Result ℕ (ResourceError w) × Slots × ResourcePool (Charged Allocation))
      → ResourcePool (Charged Allocation)
      → Result ℕ (ResourceError w) × Slots × ResourcePool (Charged Allocation)
  extend (err e) o next pool = (err e, [], pool)
  extend (ok missing) o next pool = let (r, slots, pool') = next missing in (r, o ∷ slots, pool')

  -- The second loop: the missing bytes, and what the batch then holds.
  unfoldable pub checkout :
      Limits
      → List (Spec w)
      → ℕ
      → ResourcePool (Charged Allocation)
      → Result ℕ (ResourceError w) × Slots × ResourcePool (Charged Allocation)
  checkout limits [] missing pool = (ok missing, [], pool)
  checkout limits (spec ∷ specs) missing pool =
      let s = normalized w spec in
      let (c, pool') = take_match s pool in
      extend (lacking limits s missing c) (owned true c)
        (λ missing'. checkout limits specs missing' pool') pool'

  -- Evicted resources are destroyed, and their charges with them.
  unfoldable pub drop_charges : MemoryBudget → List (Charged Allocation) → MemoryBudget
  drop_charges b [] = b
  drop_charges b (c ∷ cs) = drop_charges (drop_charge b c.charge) cs

  abbrev pub evicted : Resources → ℕ → Resources
  evicted r n =
      let (freed, pool) = evict (charged allocations) quiet n r.pool in
      let gone = take (length r.pool.slots - length pool.slots) r.pool.slots in
      record r { memory = drop_charges r.memory gone; pool = pool }

  abbrev retried :
      Resources
      → Result (MemoryBudget × Reservation) AdmissionError
      → Result Reservation (ResourceError w) × Resources
  retried r (ok (b, reservation)) = (ok reservation, record r { memory = b })
  retried r (err e) = (err (admission e), r)

  abbrev reserved :
      Resources
      → ℕ
      → Result (MemoryBudget × Reservation) AdmissionError
      → Result Reservation (ResourceError w) × Resources
  reserved r missing (err (capacity requested used limit)) =
      let r' = evicted r (saturating_sub (saturating_add used requested) limit) in
      retried r' (reserve r'.memory missing)
  reserved r missing (err e) = (err (admission e), r)
  reserved r missing (ok (b, reservation)) = (ok reservation, record r { memory = b })

  -- The reservation of all misses; where capacity is short, idle resources make room once.
  unfoldable pub fund : Resources → ℕ → Result Reservation (ResourceError w) × Resources
  fund r missing = reserved r missing (reserve r.memory missing)

  abbrev pub is_staging : Spec w → Bool
  is_staging (buffer s) = staging w s
  is_staging (texture s) = false

  pub record Creation : Type 0 where
    pub failure : Option (ResourceError w)
    pub slots : Slots
    pub memory : MemoryBudget
    pub reservation : Reservation

  abbrev pub filled : Option Owned → Creation → Creation
  filled o c = record c { slots = o ∷ c.slots }

  abbrev pub after_charge :
      MemoryBudget
      → Reservation
      → Slots
      → (MemoryBudget → Reservation → Creation)
      → Result (MemoryBudget × Reservation × Charged Allocation) AdmissionError
      → Creation
  after_charge b r slots next (ok (b', r', c)) = filled (owned false (some c)) (next b' r')
  after_charge b r slots next (err e) = record {
    failure = some (admission e);
    slots = none ∷ slots;
    memory = b;
    reservation = r;
  }

  abbrev pub create_one :
      Spec w
      → MemoryBudget
      → Reservation
      → Slots
      → (MemoryBudget → Reservation → Creation)
      → Result ℕ (ResourceError w)
      → Creation
  create_one s b r slots next (err e) = record {
    failure = some e;
    slots = none ∷ slots;
    memory = b;
    reservation = r;
  }
  create_one s b r slots next (ok n) = after_charge b r slots next (
      charge allocations b r
        (record { native = create s; spec = s; bytes = n; mapped = is_staging s }))

  -- The loop of the checked operation: what is still missing is created and charged.
  unfoldable pub create_all : Limits → List (Spec w) → Slots → MemoryBudget → Reservation → Creation
  create_all limits [] slots b r = record {
    failure = none;
    slots = slots;
    memory = b;
    reservation = r;
  }
  create_all limits (spec ∷ specs) [] b r = record {
    failure = none;
    slots = [];
    memory = b;
    reservation = r;
  }
  create_all limits (spec ∷ specs) (some o ∷ slots) b r =
      filled (some o) (create_all limits specs slots b r)
  create_all limits (spec ∷ specs) (none ∷ slots) b r =
      create_one (normalized w spec) b r slots (λ b' r'. create_all limits specs slots b' r')
        (bytes w (normalized w spec) limits)

  -- The value that the checked operation of `prepare` holds, and the slots that an error drops.
  abbrev created : Resources → Creation → Result Slots (ResourceError w) × Resources × Slots
  created r c =
      let r' = record r { memory = drop_reservation c.memory c.reservation } in
      elim c.failure [ none ↦ (ok c.slots, r', []) | some e ↦ (err e, r', c.slots) ]

  abbrev funded :
      Limits
      → List (Spec w)
      → Slots
      → Result Reservation (ResourceError w) × Resources
      → Result Slots (ResourceError w) × Resources × Slots
  funded limits specs slots (err e, r) = (err e, r, slots)
  funded limits specs slots (ok reservation, r) =
      created r (create_all limits specs slots r.memory reservation)

  abbrev checked_out :
      Limits
      → List (Spec w)
      → Resources
      → Result ℕ (ResourceError w) × Slots × ResourcePool (Charged Allocation)
      → Result Slots (ResourceError w) × Resources × Slots
  checked_out limits specs r (err e, slots, pool) = (err e, record r { pool = pool }, slots)
  checked_out limits specs r (ok missing, slots, pool) =
      funded limits specs slots (fund (record r { pool = pool }) missing)

  abbrev planned :
      Limits
      → Bool
      → List (Spec w)
      → Resources
      → Result (Unit {0}) (ResourceError w)
      → Result Slots (ResourceError w) × Resources × Slots
  planned limits room specs r (err e) = (err e, r, [])
  planned limits false specs r (ok _) = (err host_allocation, r, [])
  planned limits true specs r (ok _) = checked_out limits specs r (checkout limits specs 0 r.pool)

  -- `room` tells whether `try_reserve_exact` found memory for the slots.
  unfoldable pub prepare :
      Limits → Bool → List (Spec w) → Resources → Result Slots (ResourceError w) × Resources × Slots
  prepare limits room specs r = elim r.loss [
    | some reason ↦ (err (gpu (device_lost reason)), r, [])
    | none ↦ planned limits room specs r (check_all limits specs)
  ]
