-- ===== src/Pool/Eviction.antt =====
-- Which idle resources `set_budget` and `evict` (src/pool.rs) let go: the oldest, and no more than
-- they must.
use gpu_info_rs.Prelude.{
  ℕ, suc, ◌+◌, ◌≤◌, ◌<◌, ◌≡◌, refl, ap, false, ◌⊎◌, inl, inr, List, [], ◌∷◌, arith, sub64, u64_max,
  length, saturating_add, ltb, leb, if◌then◌else◌, some, take, drop, Bool-cases,
}
use gpu_info_rs.Pool.Interface.{Pooled}
use gpu_info_rs.Pool.{ResourcePool, overrun, set_budget, pop_oldest, evict_loop, evict}
use gpu_info_rs.Pool.Invariant.{total, IsValid, overrun_lem}

-- No other thread comes in between.
abbrev pub quiet {ℓ} : {R : Type ℓ} → ℕ → ResourcePool R → ResourcePool R
quiet k q = q

module _ {ℓ} {R : Type ℓ} (p : Pooled R) where
  overrun_minimal :
      (budget kept : ℕ) (xs : List R)
      → kept ≡ total p xs
      → kept ≤ u64_max
      → let over = (overrun p budget kept xs).1 in
        (over ≡ 0) ⊎ ((m : ℕ) × (over ≡ suc m) × (budget < total p (drop m xs)))
  unfolding overrun
  overrun_minimal budget kept [] e h = inl refl
  overrun_minimal budget kept (x ∷ xs) e h = elim (Bool-cases (ltb budget kept)) [
    | inl more ↦
        elim (overrun_minimal budget (sub64 kept (p.bytes x)) xs (ground arith) (ground arith)) [
          | inl one ↦ rw (more, overrun) (inr (0, ap suc one, ground arith))
          | inr (m, e', over) ↦ rw (more, overrun) (inr (suc m, ap suc e', over))
        ]
    | inr done ↦ rw (done, overrun) (inl refl)
  ]

  -- On a valid pool `set_budget` keeps a suffix of the idle resources within the new budget: the
  -- longest one, since with one more the bytes would exceed it.
  pub set_budget_longest :
      (q : ResourcePool R) (budget : ℕ)
      → IsValid p q
      → let q' = set_budget p q budget in
        (n : ℕ) × (q'.slots ≡ drop n q.slots)
        × (q'.bytes ≡ total p q'.slots)
        × (q'.bytes ≤ budget)
        × (q'.budget ≡ budget)
        × ((n ≡ 0) ⊎ ((m : ℕ) × (n ≡ suc m) × (budget < total p (drop m q.slots))))
  unfolding set_budget
  set_budget_longest q budget v =
      let (counted, within, _) = overrun_lem p budget q.bytes q.slots v.counted (omega arith) in
      (
        (overrun p budget q.bytes q.slots).1,
        refl,
        counted,
        within,
        refl,
        overrun_minimal budget q.bytes q.slots v.counted (omega arith),
      )

  -- What the eviction loop does to the slots alone: the bytes freed, and what stays.
  freed_from : ℕ → ℕ → List R → ℕ × List R
  freed_from bytes freed [] = (freed, [])
  freed_from bytes freed (x ∷ xs) =
      let rest = freed_from bytes (saturating_add freed (p.bytes x)) xs in
      if leb bytes freed then (freed, x ∷ xs) else rest

  evict_loop_lem :
      (bytes freed : ℕ) (xs : List R) (q : ResourcePool R)
      → q.slots ≡ xs
      → ((evict_loop p (length xs) quiet bytes freed q).0 ≡ (freed_from bytes freed xs).0)
        × ((evict_loop p (length xs) quiet bytes freed q).1.slots ≡ (freed_from bytes freed xs).1)
  unfolding evict_loop freed_from
  evict_loop_lem bytes freed [] q e = (refl, e)
  evict_loop_lem bytes freed (x ∷ xs) q e = elim (Bool-cases (leb bytes freed)) [
    | inl done ↦ rw (done, evict_loop, freed_from) (refl, e)
    | inr more ↦
        let q' : ResourcePool R = record q { slots = xs; bytes = sub64 q.bytes (p.bytes x) } in
        let popped : pop_oldest p q ≡ some (x, q') = unfold pop_oldest in ground arith in
        rw (more, popped, evict_loop, freed_from)
          (evict_loop_lem bytes (saturating_add freed (p.bytes x)) xs q' refl)
  ]

  freed_from_least :
      (bytes freed : ℕ) (x : R) (xs : List R) (n : ℕ)
      → leb bytes freed ≡ false
      → (n ≡ 0) ⊎ ((m : ℕ) × (n ≡ suc m) × (freed + p.bytes x + total p (take m xs) < bytes))
      → (suc n ≡ 0) ⊎ ((m : ℕ) × (suc n ≡ suc m) × (freed + total p (take m (x ∷ xs)) < bytes))
  freed_from_least bytes freed x xs n more (inl e) = inr (0, ap suc e, ground arith)
  freed_from_least bytes freed x xs n more (inr (m, e, less)) = inr (suc m, ap suc e, omega arith)

  freed_from_lem :
      (bytes freed : ℕ) (xs : List R)
      → freed + total p xs ≤ u64_max
      → let (f, left) = freed_from bytes freed xs in
        (n : ℕ) × (left ≡ drop n xs)
        × (f ≡ freed + total p (take n xs))
        × ((bytes ≤ f) ⊎ (left ≡ []))
        × ((n ≡ 0) ⊎ ((m : ℕ) × (n ≡ suc m) × (freed + total p (take m xs) < bytes)))
  unfolding freed_from
  freed_from_lem bytes freed [] h = (0, refl, omega arith, inr refl, inl refl)
  freed_from_lem bytes freed (x ∷ xs) h = elim (Bool-cases (leb bytes freed)) [
    | inl done ↦ rw (done, freed_from) (0, refl, omega arith, inl (ground arith), inl refl)
    | inr more ↦
        let sat : saturating_add freed (p.bytes x) ≡ freed + p.bytes x = ground arith in
        let (n, left, f, stop, least) = freed_from_lem bytes (freed + p.bytes x) xs (omega arith) in
        rw (more, sat, freed_from)
          (suc n, left, omega (arith, f), stop, freed_from_least bytes freed x xs n more least)
  ]

  -- With no other thread in between, `evict` on a valid pool removes the oldest resources and
  -- returns their bytes, until these are enough or none is left, and no more than it must.
  pub evict_enough :
      (bytes : ℕ) (q : ResourcePool R)
      → IsValid p q
      → let (f, q') = evict p quiet bytes q in
        (n : ℕ) × (q'.slots ≡ drop n q.slots)
        × (f ≡ total p (take n q.slots))
        × ((bytes ≤ f) ⊎ (q'.slots ≡ []))
        × ((n ≡ 0) ⊎ ((m : ℕ) × (n ≡ suc m) × (total p (take m q.slots) < bytes)))
  unfolding evict
  evict_enough bytes q v =
      let (f, s) = evict_loop_lem bytes 0 q.slots q refl in
      let (n, left, freed, stop, least) = freed_from_lem bytes 0 q.slots (ground arith) in
      rw (f, s)
        (
          n,
          left,
          omega (arith, freed),
          stop,
          elim least [ inl e ↦ inl e | inr (m, e, l) ↦ inr (m, e, omega arith) ],
        )
