-- ===== src/Pool/Return.antt =====
-- What `ResourcePool::put` (src/pool.rs) does with no other thread in between: it keeps the resource
-- and makes room for it by the oldest ones, or refuses it and changes nothing.
use mathlib.Core.List.{append-nil}
use gpu_info_rs.Prelude.{
  ℕ, suc, ◌+◌, ◌≤◌, ◌<◌, ◌≡◌, refl, ap, ◌∙◌, Bool, Option, true, false, ◌⊎◌, inl, inr, some, List,
  [], ◌∷◌, ◌++◌, arith, add64, u64_max, ltb, not, ◌||◌, false, length, drop, sum_by-append,
  get_elem?-length, remove_at-length, Bool-cases,
}
use gpu_info_rs.Pool.Interface.{Pooled}
use gpu_info_rs.Pool.{
  ResourcePool, pop_oldest, enough, has_room, refused, rposition, put_evict, put_last, put, take,
}
use gpu_info_rs.Pool.Invariant.{total, IsValid}
use gpu_info_rs.Pool.Eviction.{quiet}

rposition-append {ℓ} :
    {A : Type ℓ} (f : A → Bool) (x : A) (xs : List A)
    → f x ≡ true
    → rposition f (xs ++ x ∷ []) ≡ some (length xs)
unfolding rposition
rposition-append f x [] e = rw (e, rposition)
rposition-append f x (y ∷ xs) e = rw (rposition-append f x xs e, rposition)

module _ {ℓ} {R : Type ℓ} (p : Pooled R) where
  -- The pool with other idle resources.
  abbrev pub holding : List R → ResourcePool R → ResourcePool R
  holding xs q = record q { slots = xs; bytes = total p xs }

  pub holding_self : (q : ResourcePool R) → IsValid p q → q ≡ holding q.slots q
  holding_self q v = ground arith

  pop_oldest-holding :
      (x : R) (xs : List R) (q : ResourcePool R)
      → total p (x ∷ xs) ≤ u64_max
      → pop_oldest p (holding (x ∷ xs) q) ≡ some (x, holding xs q)
  unfolding pop_oldest
  pop_oldest-holding x xs q h = ground arith

  put_evict_least :
      (size : ℕ) (x : R) (xs : List R) (q : ResourcePool R) (n : ℕ)
      → has_room p (holding (x ∷ xs) q) size ≡ false
      → (n ≡ 0) ⊎ ((m : ℕ) × (n ≡ suc m) × (has_room p (holding (drop m xs) q) size ≡ false))
      → (suc n ≡ 0)
        ⊎ ((m : ℕ) × (suc n ≡ suc m) × (has_room p (holding (drop m (x ∷ xs)) q) size ≡ false))
  put_evict_least size x xs q n more (inl e) = inr (0, ap suc e, more)
  put_evict_least size x xs q n more (inr (m, e, less)) = inr (suc m, ap suc e, less)

  -- The loop ends with room for the resource, and drops no more than it must.
  put_evict_room :
      (size : ℕ) (xs : List R) (q : ResourcePool R)
      → total p xs ≤ u64_max
      → size ≤ q.budget
      → 0 < q.max_entries
      → (n : ℕ) × (put_evict p (length xs) quiet size (holding xs q) ≡ some (holding (drop n xs) q))
        × (has_room p (holding (drop n xs) q) size ≡ true)
        × ((n ≡ 0) ⊎ ((m : ℕ) × (n ≡ suc m) × (has_room p (holding (drop m xs) q) size ≡ false)))
  unfolding put_evict
  put_evict_room size [] q v h k = (0, refl, ground arith, inl refl)
  put_evict_room size (x ∷ xs) q v h k = elim (Bool-cases (has_room p (holding (x ∷ xs) q) size)) [
    | inl done ↦ (0, ground arith, done, inl refl)
    | inr more ↦
        let popped = pop_oldest-holding x xs q v in
        let (n, ih, room, least) = put_evict_room size xs q (omega arith) h k in
        let full : enough p (holding (x ∷ xs) q) size ≡ false = ground arith in
        (suc n, rw (full, popped, put_evict) ih, room, put_evict_least size x xs q n more least)
  ]

  put_last_room :
      (x : R) (xs : List R) (q : ResourcePool R)
      → q.budget ≤ u64_max
      → p.bytes x ≤ q.budget
      → has_room p (holding xs q) (p.bytes x) ≡ true
      → ◌≡◌ {A = Option (ResourcePool R)}
          (some (put_last p true x (holding xs q)))
          (some (holding (xs ++ x ∷ []) q))
  put_last_room x xs q f h room =
      let kept : (ltb q.budget (p.bytes x) || not (has_room p (holding xs q) (p.bytes x)) || false)
          ≡ false =
        ground arith in
      let count : add64 (total p xs) (p.bytes x) ≡ total p (xs ++ x ∷ []) =
        ground (arith, sum_by-append p.bytes xs (x ∷ [])) in
      rw (kept, count)

  -- With no other thread in between, a valid pool that keeps any entry keeps a resource within
  -- its budget as its youngest: the oldest resources go, and no more than must, since with one
  -- more there would be no room.
  pub put_keeps :
      (x : R) (q : ResourcePool R)
      → IsValid p q
      → p.bytes x ≤ q.budget
      → 0 < q.max_entries
      → (n : ℕ) × (put p true true quiet x q ≡ some (holding (drop n q.slots ++ x ∷ []) q))
        × (total p (drop n q.slots) + p.bytes x ≤ q.budget)
        × (length (drop n q.slots) < q.max_entries)
        × ((n ≡ 0)
            ⊎ ((m : ℕ) × (n ≡ suc m)
                × ((q.budget < total p (drop m q.slots) + p.bytes x)
                    ⊎ (q.max_entries ≤ length (drop m q.slots)))))
  unfolding put
  put_keeps x q v h k =
      let (n, loop, room, least) = put_evict_room (p.bytes x) q.slots q (omega arith) h k in
      let looped = ap (put_evict p (length q.slots) quiet (p.bytes x)) (holding_self q v) ∙ loop in
      let kept : refused p q x ≡ false = ground arith in
      (
        n,
        rw (kept, looped, put) (put_last_room x (drop n q.slots) q v.budget_fits h room),
        ground arith,
        ground arith,
        elim least [ inl e ↦ inl e | inr (m, e, full) ↦ inr (m, e, ground arith) ],
      )

  take-holding :
      (key : p.Key) (x : R) (xs : List R) (q : ResourcePool R)
      → p.key_eq (p.key x) key ≡ true
      → total p (xs ++ x ∷ []) ≤ u64_max
      → take p (holding (xs ++ x ∷ []) q) key ≡ (some x, holding xs q)
  unfolding take
  take-holding key x xs q e h =
      rw
        (
          rposition-append (λ slot. p.key_eq (p.key slot) key) x xs e,
          get_elem?-length xs x [],
          remove_at-length xs x [],
          append-nil xs,
          take,
        )
        (ground (arith, sum_by-append p.bytes xs (x ∷ [])))

  -- With no other thread in between, a resource within the budget that was just returned to a
  -- valid pool that keeps any entry is the one that the next `take` of its key gives, and leaves
  -- a valid pool.
  pub take-put :
      (x : R) (key : p.Key) (q : ResourcePool R)
      → IsValid p q
      → p.bytes x ≤ q.budget
      → 0 < q.max_entries
      → p.key_eq (p.key x) key ≡ true
      → (q' : ResourcePool R) × (rest : ResourcePool R) × (put p true true quiet x q ≡ some q')
        × (take p q' key ≡ (some x, rest))
        × IsValid p rest
  take-put x key q v h k e =
      let (n, kept, fits, few, _) = put_keeps x q v h k in
      let left = drop n q.slots in
      let sum = sum_by-append p.bytes left (x ∷ []) in
      (
        holding (left ++ x ∷ []) q,
        holding left q,
        kept,
        take-holding key x left q e (omega (arith, sum)),
        ground arith,
      )

  -- A resource larger than the budget is dropped, whatever the pool holds, and so is any where no
  -- entry is allowed.
  pub put_refuses :
      (reserved reserved' : Bool) (x : R) (q : ResourcePool R)
      → (q.budget < p.bytes x) ⊎ (q.max_entries ≡ 0)
      → put p reserved reserved' quiet x q ≡ some q
  unfolding put
  put_refuses reserved reserved' x q h = ground arith
