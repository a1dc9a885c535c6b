-- ===== src/Admission/Outcomes.antt =====
-- What `reserve`, `charge` and the two destructors of src/budget/admission.rs do on each branch.
use gpu_info_rs.Prelude.{
  ℕ, ◌+◌, ◌-◌, ◌≤◌, ◌<◌, max, ◌≡◌, ◌⊎◌, ◌↔◌, none, some, ok, err, arith, u64_max,
}
use gpu_info_rs.Pool.Interface.{Pooled}
use gpu_info_rs.Admission.{
  MemoryUsage, MemoryBudget, Reservation, Charged, reserve, granted, charge, drop_reservation,
  drop_charge, AdmissionError, unconfigured, overflow, capacity, reservation_too_small,
}

-- The sum of the two accounts, as a number that does not wrap.
abbrev pub held : MemoryUsage → ℕ
held u = u.reserved + u.allocated

-- The accounting of a budget does not exceed a `u64`.
abbrev pub Fits : MemoryBudget → Type 0
Fits b = held b.usage ≤ u64_max

-- The bytes are within the configured allowance, or there are none.
abbrev pub Allowed : MemoryBudget → ℕ → Type 0
Allowed b n = (n ≡ 0) ⊎ ((l : ℕ) × (b.usage.limit ≡ some l) × (held b.usage + n ≤ l))

-- Where the accounts fit a `u64`, `reserve` succeeds exactly when the total is a `u64` and the
-- bytes are none or within the configured allowance.
pub reserve-granted_iff :
    (b : MemoryBudget) (n : ℕ)
    → Fits b
    → ((x : MemoryBudget × Reservation) × (reserve b n ≡ ok x))
      ↔ ((held b.usage + n ≤ u64_max) × Allowed b n)
unfolding reserve
reserve-granted_iff b n h =
    (λ (x, e). ground arith, λ a. (granted b n (held b.usage + n), ground arith))

-- What a granted reservation changes: its bytes are reserved and promised to its handle, the peak
-- is the larger of the old one and the new total, and all else stays.
pub reserve_effect :
    (b c : MemoryBudget) (r : Reservation) (n : ℕ)
    → Fits b
    → reserve b n ≡ ok (c, r)
    → (c.usage.reserved ≡ b.usage.reserved + n)
      × (c.usage.allocated ≡ b.usage.allocated)
      × (c.usage.limit ≡ b.usage.limit)
      × (c.usage.peak ≡ max b.usage.peak (held b.usage + n))
      × (c.id ≡ b.id)
      × (r.budget ≡ b.id)
      × (r.remaining ≡ n)
      × (held b.usage + n ≤ u64_max)
unfolding reserve
reserve_effect b c r n h e = ground arith

-- Where the accounts fit a `u64`, a refusal names its cause: the total is no `u64`, or positive
-- growth without an allowance, or growth past it with the figures of the refusal.
pub reserve_refused :
    (b : MemoryBudget) (n : ℕ) (e : AdmissionError)
    → Fits b
    → reserve b n ≡ err e
    → (e ≡ overflow) × (u64_max < held b.usage + n)
      ⊎ (e ≡ unconfigured) × (0 < n) × (b.usage.limit ≡ none)
      ⊎ ((l : ℕ) × (e ≡ capacity n (held b.usage) l)
          × (0 < n)
          × (b.usage.limit ≡ some l)
          × (l < held b.usage + n))
unfolding reserve
reserve_refused b n e h q = ground arith

-- Where the accounts fit a `u64`, a granted reservation that is dropped unused gives its bytes
-- back; only the peak remembers it.
pub drop_reservation-reserve :
    (b c : MemoryBudget) (r : Reservation) (n : ℕ)
    → Fits b
    → reserve b n ≡ ok (c, r)
    → drop_reservation c r
      ≡ record b { usage = record (b.usage) { peak = max b.usage.peak (held b.usage + n) } }
unfolding reserve drop_reservation
drop_reservation-reserve b c r n h e = ground arith

module _ {ℓ} {R : Type ℓ} (p : Pooled R) where
  -- Where the accounts fit a `u64` and the reservation is part of the reserved one, a charge
  -- moves the resource's bytes from the reserved to the allocated account: the total, the limit
  -- and the peak stay, and the reservation keeps the rest.
  pub charge_effect :
      (b c : MemoryBudget) (r s : Reservation) (x : R) (o : Charged R)
      → Fits b
      → r.remaining ≤ b.usage.reserved
      → charge p b r x ≡ ok (c, s, o)
      → (held c.usage ≡ held b.usage)
        × (c.usage.reserved + p.bytes x ≡ b.usage.reserved)
        × (c.usage.limit ≡ b.usage.limit)
        × (c.usage.peak ≡ b.usage.peak)
        × (c.id ≡ b.id)
        × (s.remaining + p.bytes x ≡ r.remaining)
        × (s.budget ≡ r.budget)
        × (o.charge.bytes ≡ p.bytes x)
        × (o.charge.budget ≡ r.budget)
        × (o.resource ≡ x)
  unfolding charge
  charge_effect b c r s x o h k e = ground arith

  -- It is refused exactly when the resource needs more than the reservation has left.
  pub charge-refused_iff :
      (b : MemoryBudget) (r : Reservation) (x : R)
      → (charge p b r x ≡ err (reservation_too_small (p.bytes x) r.remaining))
        ↔ (r.remaining < p.bytes x)
  unfolding charge
  charge-refused_iff b r x = (λ e. ground arith, λ e. ground arith)

  -- Reserving, charging the whole reservation and dropping the charge restores both accounts.
  pub drop_charge-charge :
      (b c : MemoryBudget) (r s : Reservation) (x : R) (o : Charged R)
      → Fits b
      → r.remaining ≤ b.usage.reserved
      → charge p b r x ≡ ok (c, s, o)
      → drop_charge c o.charge
        ≡ record b { usage = record (b.usage) { reserved = b.usage.reserved - p.bytes x } }
  unfolding charge drop_charge
  drop_charge-charge b c r s x o h k e = ground arith
