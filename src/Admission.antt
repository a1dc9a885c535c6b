-- ===== src/Admission.antt =====
-- Allocation admission (src/budget/admission.rs). A `MemoryBudget` is shared through an `Arc`: `id`
-- is that allocation's identity, and an operation under its lock takes the accounting that it
-- finds and returns the one that it leaves. A value's `Drop` is an operation of its own.
pub mod Outcomes
pub mod Ledger
pub mod Invariant
mod Tests
use gpu_info_rs.Prelude.{
  ℕ, ◌+◌, max, ◌≡◌, Bool, true, false, Option, none, some, ltb, ◌==◌, if◌then◌else◌, Result, ok,
  err, ◌>>=◌, ok_or, add64, sub64, checked_add,
}
use gpu_info_rs.Pool.Interface.{Pooled}

pub record MemoryUsage : Type 0 where
  pub limit : Option ℕ
  pub reserved : ℕ
  pub allocated : ℕ
  pub peak : ℕ

abbrev pub used : MemoryUsage → ℕ
used u = add64 u.reserved u.allocated

pub record MemoryBudget : Type 0 where
  pub id : ℕ
  pub usage : MemoryUsage

pub data AdmissionError : Type 0 where
  unconfigured overflow : AdmissionError
  capacity : (requested used limit : ℕ) → AdmissionError
  reservation_too_small : (requested remaining : ℕ) → AdmissionError

pub record Reservation : Type 0 where
  pub budget : ℕ
  pub remaining : ℕ

pub record Charge : Type 0 where
  pub budget : ℕ
  pub bytes : ℕ

pub record Charged {ℓ} (R : Type ℓ) : Type ℓ where
  pub resource : R
  pub charge : Charge

-- `MemoryBudget::new`, at a fresh address.
unfoldable pub new : ℕ → Option ℕ → MemoryBudget
new id limit = record {
  id = id;
  usage = record { limit = limit; reserved = 0; allocated = 0; peak = 0 };
}

unfoldable pub set_limit : MemoryBudget → Option ℕ → MemoryBudget
set_limit b limit = record b { usage = record (b.usage) { limit = limit } }

-- The test of positive growth against the configured limit.
abbrev admit : Option ℕ → (bytes used total : ℕ) → Result ℕ AdmissionError
admit limit bytes used total =
    if bytes == 0
    then ok total
    else (ok_or limit unconfigured >>= λ l.
        if ltb l total then err (capacity bytes used l) else ok total)

-- The state that a granted reservation leaves, with its handle.
abbrev granted : MemoryBudget → (bytes total : ℕ) → MemoryBudget × Reservation
granted b bytes total = (
  record b {
    usage = record (b.usage) {
      reserved = add64 b.usage.reserved bytes;
      peak = max b.usage.peak total;
    };
  },
  record { budget = b.id; remaining = bytes },
)

unfoldable pub reserve : MemoryBudget → ℕ → Result (MemoryBudget × Reservation) AdmissionError
reserve b bytes = do
  total ← ok_or (checked_add (used b.usage) bytes) overflow
  admitted ← admit b.usage.limit bytes (used b.usage) total
  ok (granted b bytes admitted)

-- `Reservation::drop`: the unused remainder rolls back.
unfoldable pub drop_reservation : MemoryBudget → Reservation → MemoryBudget
drop_reservation b r = record b {
  usage = record (b.usage) { reserved = sub64 b.usage.reserved r.remaining };
}

-- `Charge::drop`, after the resource's own destructor.
unfoldable pub drop_charge : MemoryBudget → Charge → MemoryBudget
drop_charge b c = record b {
  usage = record (b.usage) { allocated = sub64 b.usage.allocated c.bytes };
}

-- `Charged::belongs_to`: `Arc::ptr_eq` of the two budgets.
unfoldable pub belongs_to {ℓ} : {R : Type ℓ} → Charged R → MemoryBudget → Bool
belongs_to c b = c.charge.budget == b.id

module _ {ℓ} {R : Type ℓ} (p : Pooled R) where
  -- The accounting of `Reservation::charge` under the lock.
  abbrev pub transferred :
      MemoryBudget → Reservation → R → ℕ → MemoryBudget × Reservation × Charged R
  transferred b r resource bytes = (
    record b {
      usage = record (b.usage) {
        reserved = sub64 b.usage.reserved bytes;
        allocated = add64 b.usage.allocated bytes;
      };
    },
    record r { remaining = sub64 r.remaining bytes },
    record { resource = resource; charge = record { budget = r.budget; bytes = bytes } },
  )

  -- On an error the resource is dropped, and neither the accounting nor the reservation changes.
  unfoldable pub charge :
      MemoryBudget
      → Reservation
      → R
      → Result (MemoryBudget × Reservation × Charged R) AdmissionError
  charge b r resource =
      if ltb r.remaining (p.bytes resource)
      then err (reservation_too_small (p.bytes resource) r.remaining)
      else ok (transferred b r resource (p.bytes resource))

  -- `impl Pooled for Charged<R>`: the resource's key, and the bytes that were charged for it.
  abbrev pub charged : Pooled (Charged R)
  charged = record {
    Key = p.Key;
    key_eq = p.key_eq;
    key = λ c. p.key c.resource;
    bytes = λ c. c.charge.bytes;
  }
