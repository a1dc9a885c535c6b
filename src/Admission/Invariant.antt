-- ===== src/Admission/Invariant.antt =====
-- The two accounts of src/budget/admission.rs are the sums over the handles that are alive.
use gpu_info_rs.Prelude.{
  ℕ, ◌+◌, ◌≤◌, ◌≡◌, refl, ◌⊎◌, inl, inr, Option, some, List, [], ◌∷◌, arith, u64_max, get_elem?,
  set, remove_at, sub64, sum_by, sum_by-set, sum_by-remove_at, Option-cases,
}
use gpu_info_rs.Pool.Interface.{Pooled}
use gpu_info_rs.Admission.{
  used, Reservation, Charged, new, set_limit, reserve, charge, drop_reservation, drop_charge,
}
use gpu_info_rs.Admission.Outcomes.{held}
use gpu_info_rs.Admission.Ledger.{
  Ledger, Call, limits, reserves, charges, aborts, releases, opened, step, run,
}

abbrev pub promised : List Reservation → ℕ
promised = sum_by (λ r. r.remaining)

abbrev pub owned {ℓ} : {R : Type ℓ} → List (Charged R) → ℕ
owned = sum_by (λ c. c.charge.bytes)

pub record Inv {ℓ} {R : Type ℓ} (l : Ledger R) : Type 0 where
  pub reserved_is : l.budget.usage.reserved ≡ promised l.reservations
  pub allocated_is : l.budget.usage.allocated ≡ owned l.charges
  pub below_peak : held l.budget.usage ≤ l.budget.usage.peak
  pub peak_fits : l.budget.usage.peak ≤ u64_max

-- What a reservation holds is part of the reserved account.
promised-remove_at :
    (i : ℕ) (rs : List Reservation) (r : Reservation)
    → get_elem? rs i ≡ some r
    → promised rs ≡ r.remaining + promised (remove_at i rs)
promised-remove_at i rs r e = sum_by-remove_at (λ r. r.remaining) i rs r e

promised-set :
    (i : ℕ) (rs : List Reservation) (r s : Reservation)
    → get_elem? rs i ≡ some r
    → promised (set rs i s) + r.remaining ≡ promised rs + s.remaining
promised-set i rs r s e = sum_by-set (λ r. r.remaining) i rs r s e

owned-remove_at {ℓ} :
    {R : Type ℓ} (i : ℕ) (cs : List (Charged R)) (c : Charged R)
    → get_elem? cs i ≡ some c
    → owned cs ≡ c.charge.bytes + owned (remove_at i cs)
owned-remove_at i cs c e = sum_by-remove_at (λ c. c.charge.bytes) i cs c e

-- A fresh budget satisfies the invariant.
pub opened-Inv {ℓ} : {R : Type ℓ} (id : ℕ) (limit : Option ℕ) → Inv (opened {R = R} id limit)
unfolding new
opened-Inv id limit = ground arith

module _ {ℓ} {R : Type ℓ} (p : Pooled R) where
  charges-Inv :
      (l : Ledger R) (i : ℕ) (x : R) (r : Reservation)
      → get_elem? l.reservations i ≡ some r
      → Inv l
      → Inv (step p l (charges i x))
  unfolding step charge
  charges-Inv l i x r e v =
      rw (e, step)
        (ground (
          arith,
          promised-remove_at i l.reservations r e,
          promised-set i l.reservations r (record r { remaining = sub64 r.remaining (p.bytes x) })
              e,
        ))

  aborts-Inv :
      (l : Ledger R) (i : ℕ) (r : Reservation)
      → get_elem? l.reservations i ≡ some r
      → Inv l
      → Inv (step p l (aborts i))
  unfolding step drop_reservation
  aborts-Inv l i r e v = rw (e, step) (ground (arith, promised-remove_at i l.reservations r e))

  releases-Inv :
      (l : Ledger R) (i : ℕ) (c : Charged R)
      → get_elem? l.charges i ≡ some c
      → Inv l
      → Inv (step p l (releases i))
  unfolding step drop_charge
  releases-Inv l i c e v = rw (e, step) (ground (arith, owned-remove_at i l.charges c e))

  -- Every call keeps the accounts equal to what the handles hold, and both below the peak.
  pub step-Inv : (l : Ledger R) (c : Call R) → Inv l → Inv (step p l c)
  unfolding step set_limit reserve
  step-Inv l (limits n) v = ground arith
  step-Inv l (reserves n) v = ground arith
  step-Inv l (charges i x) v = elim (Option-cases (get_elem? l.reservations i)) [
    | inl e ↦ rw (e, step) v
    | inr (r, e) ↦ charges-Inv l i x r e v
  ]
  step-Inv l (aborts i) v = elim (Option-cases (get_elem? l.reservations i)) [
    | inl e ↦ rw (e, step) v
    | inr (r, e) ↦ aborts-Inv l i r e v
  ]
  step-Inv l (releases i) v = elim (Option-cases (get_elem? l.charges i)) [
    | inl e ↦ rw (e, step) v
    | inr (r, e) ↦ releases-Inv l i r e v
  ]

  pub run-Inv : (l : Ledger R) (cs : List (Call R)) → Inv l → Inv (run p l cs)
  unfolding run
  run-Inv l [] v = v
  run-Inv l (c ∷ cs) v = run-Inv (step p l c) cs (step-Inv l c v)

  -- After any calls on a fresh budget the total of the two accounts is what the handles hold, and a
  -- `u64`; so once all handles are dropped nothing stays charged.
  pub run-opened :
      (id : ℕ) (limit : Option ℕ) (cs : List (Call R))
      → let l = run p (opened id limit) cs in
        (used l.budget.usage ≡ promised l.reservations + owned l.charges)
        × (promised l.reservations + owned l.charges ≤ u64_max)
  run-opened id limit cs = ground (arith, run-Inv (opened id limit) cs (opened-Inv id limit))

  limits-le :
      (l : Ledger R) (n : Option ℕ) → held (step p l (limits n)).budget.usage ≤ held l.budget.usage
  unfolding step set_limit
  limits-le l n = ground arith

  reserves-Allowed :
      (l : Ledger R) (n : ℕ)
      → Inv l
      → let b = (step p l (reserves n)).budget in
        (held b.usage ≤ held l.budget.usage)
        ⊎ ((m : ℕ) × (l.budget.usage.limit ≡ some m)
            × (held b.usage ≡ held l.budget.usage + n)
            × (held b.usage ≤ m))
  unfolding step reserve
  reserves-Allowed l n v = ground arith

  charges-le :
      (l : Ledger R) (i : ℕ) (x : R)
      → Inv l
      → held (step p l (charges i x)).budget.usage ≤ held l.budget.usage
  unfolding step charge
  charges-le l i x v = elim (Option-cases (get_elem? l.reservations i)) [
    | inl e ↦ rw (e, step) (omega arith)
    | inr (r, e) ↦ rw (e, step) (ground (arith, promised-remove_at i l.reservations r e))
  ]

  aborts-le :
      (l : Ledger R) (i : ℕ) → Inv l → held (step p l (aborts i)).budget.usage ≤ held l.budget.usage
  unfolding step drop_reservation
  aborts-le l i v = elim (Option-cases (get_elem? l.reservations i)) [
    | inl e ↦ rw (e, step) (omega arith)
    | inr (r, e) ↦ rw (e, step) (ground (arith, promised-remove_at i l.reservations r e))
  ]

  releases-le :
      (l : Ledger R) (i : ℕ)
      → Inv l
      → held (step p l (releases i)).budget.usage ≤ held l.budget.usage
  unfolding step drop_charge
  releases-le l i v = elim (Option-cases (get_elem? l.charges i)) [
    | inl e ↦ rw (e, step) (omega arith)
    | inr (c, e) ↦ rw (e, step) (ground (arith, owned-remove_at i l.charges c e))
  ]

  -- Where both accounts are what the handles hold, only a reservation makes the total grow, and
  -- then by its bytes, to no more than the allowance that is configured: neither a charge nor a
  -- dropped handle nor a new allowance makes it grow.
  pub step-Allowed :
      (l : Ledger R) (c : Call R)
      → Inv l
      → let b = (step p l c).budget in
        (held b.usage ≤ held l.budget.usage)
        ⊎ ((bytes : ℕ) × (n : ℕ) × (c ≡ reserves bytes)
            × (l.budget.usage.limit ≡ some n)
            × (held b.usage ≡ held l.budget.usage + bytes)
            × (held b.usage ≤ n))
  step-Allowed l (limits n) v = inl (limits-le l n)
  step-Allowed l (reserves n) v = elim (reserves-Allowed l n v) [
    | inl same ↦ inl same
    | inr (m, known, grown, fits) ↦ inr (n, m, refl, known, grown, fits)
  ]
  step-Allowed l (charges i x) v = inl (charges-le l i x v)
  step-Allowed l (aborts i) v = inl (aborts-le l i v)
  step-Allowed l (releases i) v = inl (releases-le l i v)
