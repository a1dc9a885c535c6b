-- ===== src/Pool/Invariant.antt =====
-- What holds of a `ResourcePool` (src/pool.rs) whenever its lock is free, whatever other threads do
-- in between: the byte count is exact, and both limits are kept.
use gpu_info_rs.Prelude.{
  ℕ, zero, suc, ◌≤◌, ◌<◌, ◌≡◌, refl, ap, ◌∙◌, ◌⊎◌, inl, inr, Bool, true, false, none, some, List,
  [], ◌∷◌, arith, sub64, u64_max, leb, length, get_elem?, remove_at, drop, sum_by, sum_by-append,
  sum_by-remove_at, length-append, Option-cases, List-cases, Bool-cases,
}
use gpu_info_rs.Pool.Interface.{Pooled}
use gpu_info_rs.Pool.{
  ResourcePool, with_limits, rposition, overrun, set_budget, take, pop_oldest, enough, put_evict,
  put_last, refused, put, evict_loop, evict,
}

length-remove_at-le {ℓ} : {A : Type ℓ} (i : ℕ) (xs : List A) → length (remove_at i xs) ≤ length xs
length-remove_at-le i [] = omega arith
length-remove_at-le zero (x ∷ xs) = omega arith
length-remove_at-le (suc i) (x ∷ xs) = omega (arith, length-remove_at-le i xs)

module _ {ℓ} {R : Type ℓ} (p : Pooled R) where
  abbrev pub total : List R → ℕ
  total = sum_by p.bytes

  pub record IsValid (q : ResourcePool R) : Type 0 where
    pub counted : q.bytes ≡ total q.slots
    pub within : q.bytes ≤ q.budget
    pub budget_fits : q.budget ≤ u64_max
    pub entries : length q.slots ≤ q.max_entries

  -- What other threads may do while the lock is free: leave a valid pool with its entry limit.
  abbrev pub Fair : (ℕ → ResourcePool R → ResourcePool R) → Type ℓ
  Fair others =
      (k : ℕ) (q : ResourcePool R)
      → IsValid q
      → IsValid (others k q) × ((others k q).max_entries ≡ q.max_entries)

  pub with_limits-IsValid :
      (budget max_entries : ℕ) → budget ≤ u64_max → IsValid (with_limits budget max_entries)
  unfolding with_limits
  with_limits-IsValid budget max_entries h = ground arith

  pub take-IsValid : (q : ResourcePool R) (key : p.Key) → IsValid q → IsValid (take p q key).1
  unfolding take
  take-IsValid q key v =
      elim (Option-cases (rposition (λ slot. p.key_eq (p.key slot) key) q.slots)) [
        | inl e ↦ rw (e, take) v
        | inr (at, e) ↦ elim (Option-cases (get_elem? q.slots at)) [
          | inl e' ↦ rw (e, e', take) v
          | inr (slot, e') ↦
              rw (e, e', take)
                (ground (
                  arith,
                  sum_by-remove_at p.bytes at q.slots slot e',
                  length-remove_at-le at q.slots,
                ))
        ]
      ]

  -- The loop of `set_budget` counts what is left, and leaves no more than the new budget.
  pub overrun_lem :
      (budget kept : ℕ) (xs : List R)
      → kept ≡ total xs
      → kept ≤ u64_max
      → let (left, over) = overrun p budget kept xs in
        (left ≡ total (drop over xs)) × (left ≤ budget) × (length (drop over xs) ≤ length xs)
  unfolding overrun
  overrun_lem budget kept [] e h = ground arith
  overrun_lem budget kept (x ∷ xs) e h =
      ground (arith, overrun_lem budget (sub64 kept (p.bytes x)) xs)

  pub set_budget-IsValid :
      (q : ResourcePool R) (budget : ℕ)
      → budget ≤ u64_max
      → IsValid q
      → IsValid (set_budget p q budget)
  unfolding set_budget
  set_budget-IsValid q budget h v = ground (arith, overrun_lem budget q.bytes q.slots)

  -- A popped resource leaves its bytes out of the count; only an empty pool has none.
  pub pop_oldest_lem :
      (q : ResourcePool R)
      → IsValid q
      → (pop_oldest p q ≡ none) × (q.slots ≡ [])
        ⊎ ((old : R) × (q' : ResourcePool R) × (pop_oldest p q ≡ some (old, q'))
            × IsValid q'
            × (q'.max_entries ≡ q.max_entries))
  unfolding pop_oldest
  pop_oldest_lem q v = elim (List-cases q.slots) [
    | inl e ↦ inl (ground arith, e)
    | inr (x, rest, e) ↦ inr (
      x,
      record q { slots = rest; bytes = sub64 q.bytes (p.bytes x) },
      ground arith,
      ground arith,
      refl,
    )
  ]

  -- The eviction loop of `put` never removes from an empty pool, and leaves a valid one.
  put_evict-IsValid :
      (n size : ℕ) (others : ℕ → ResourcePool R → ResourcePool R) (q : ResourcePool R)
      → Fair others
      → 0 < q.max_entries
      → IsValid q
      → (q' : ResourcePool R) × (put_evict p n others size q ≡ some q')
        × IsValid q'
        × (q'.max_entries ≡ q.max_entries)
  unfolding put_evict
  put_evict-IsValid zero size others q f h v = (q, refl, v, refl)
  put_evict-IsValid (suc n) size others q f h v = elim (Bool-cases (enough p q size)) [
    | inl e ↦ (q, rw (e, put_evict), v, refl)
    | inr e ↦ elim (pop_oldest_lem q v) [
      | inl (_, empty) ↦ absurd (ground (arith, ap length empty, v.counted))
      | inr (old, q', e', v', m) ↦
          let (fair, same) = f 0 q' v' in
          let (r, e'', v'', m') =
            put_evict-IsValid n size (λ k. others (suc k)) (others 0 q') (λ k. f (suc k))
              (omega arith) fair in
          (r, rw (e, e', put_evict) e'', v'', m' ∙ same ∙ m)
    ]
  ]

  put_last-IsValid :
      (reserved : Bool) (x : R) (q : ResourcePool R)
      → IsValid q
      → IsValid (put_last p reserved x q) × ((put_last p reserved x q).max_entries ≡ q.max_entries)
  put_last-IsValid reserved x q v =
      ground (arith, sum_by-append p.bytes q.slots (x ∷ []), length-append q.slots (x ∷ []))

  -- `put` never panics and keeps a valid pool valid, with its entry limit, if whatever other
  -- threads do while it evicts keeps a valid pool valid, with its entry limit.
  pub put-IsValid :
      (reserved reserved' : Bool) (others : ℕ → ResourcePool R → ResourcePool R) (x : R)
      (q : ResourcePool R)
      → Fair others
      → IsValid q
      → (q' : ResourcePool R) × (put p reserved reserved' others x q ≡ some q')
        × IsValid q'
        × (q'.max_entries ≡ q.max_entries)
  unfolding put
  put-IsValid false reserved' others x q f v = elim (Bool-cases (refused p q x)) [
    | inl e ↦ (q, rw (e, put), v, refl)
    | inr e ↦ (others 0 q, rw (e, put), (f 0 q v).0, (f 0 q v).1)
  ]
  put-IsValid true reserved' others x q f v = elim (Bool-cases (refused p q x)) [
    | inl e ↦ (q, rw (e, put), v, refl)
    | inr e ↦
        let (fair, same) = f 0 q v in
        let (r, e', v', m) =
          put_evict-IsValid (length (others 0 q).slots) (p.bytes x) (λ k. others (suc k))
            (others 0 q) (λ k. f (suc k)) (ground arith) fair in
        let (v'', m') = put_last-IsValid reserved' x r v' in
        (put_last p reserved' x r, rw (e, e', put), v'', m' ∙ m ∙ same)
  ]

  evict_loop-IsValid :
      (n bytes freed : ℕ) (others : ℕ → ResourcePool R → ResourcePool R) (q : ResourcePool R)
      → Fair others
      → IsValid q
      → IsValid (evict_loop p n others bytes freed q).1
  unfolding evict_loop
  evict_loop-IsValid zero bytes freed others q f v = v
  evict_loop-IsValid (suc n) bytes freed others q f v = elim (Bool-cases (leb bytes freed)) [
    | inl e ↦ rw (e, evict_loop) v
    | inr e ↦ elim (pop_oldest_lem q v) [
      | inl (e', _) ↦ rw (e, e', evict_loop) v
      | inr (old, q', e', v', _) ↦
          rw (e, e', evict_loop)
            (evict_loop-IsValid n bytes _ (λ k. others (suc k)) (others 0 q') (λ k. f (suc k))
              (f 0 q' v').0)
    ]
  ]

  -- `evict` keeps a valid pool valid, if whatever other threads do between two of its removals
  -- keeps a valid pool valid, with its entry limit.
  pub evict-IsValid :
      (bytes : ℕ) (others : ℕ → ResourcePool R → ResourcePool R) (q : ResourcePool R)
      → Fair others
      → IsValid q
      → IsValid (evict p others bytes q).1
  unfolding evict
  evict-IsValid bytes others q f v =
      evict_loop-IsValid _ bytes 0 (λ k. others (suc k)) (others 0 q) (λ k. f (suc k)) (f 0 q v).0
