-- ===== src/Pool/Destruction.antt =====
-- Which resources `ResourcePool::put` (src/pool.rs) destroys: together with the idle ones they are what
-- was idle and what was put.
use gpu_info_rs.Prelude.{
  ℕ, suc, ◌+◌, ◌-◌, ◌≡◌, refl, inl, inr, Bool, true, false, not, ◌||◌, Option, none, some, List, [],
  ◌∷◌, ◌++◌, ltb, arith, sub64, length, take, drop, sum_by, sum_by-append, sum_by-split,
  if◌then◌else◌, Bool-cases,
}
use gpu_info_rs.Pool.Interface.{Pooled}
use gpu_info_rs.Pool.{ResourcePool, pop_oldest, enough, refused, has_room, put_evict, put_last, put}
use gpu_info_rs.Pool.Eviction.{quiet}

module _ {ℓ} {R : Type ℓ} (p : Pooled R) where
  abbrev pub unplaced : Bool → R → ResourcePool R → List R
  unplaced reserved x q =
      if ltb q.budget (p.bytes x) || not (has_room p q (p.bytes x)) || not reserved
      then x ∷ []
      else []

  abbrev displaced : Bool → R → ResourcePool R → Option (ResourcePool R) → List R
  displaced reserved x q none = []
  displaced reserved x q (some q') =
      take (length q.slots - length q'.slots) q.slots ++ unplaced reserved x q'

  -- What `put` destroys when no other thread comes in between: the resource, or the oldest ones.
  abbrev pub put_destroys : Bool → Bool → R → ResourcePool R → List R
  put_destroys reserved reserved' x q =
      if refused p q x || not reserved
      then x ∷ []
      else displaced reserved' x q (put_evict p (length q.slots) quiet (p.bytes x) q)

  -- With no other thread in between, the loop of `put` ends and takes the oldest resources only.
  put_evict_suffix :
      (size : ℕ) (xs : List R) (q : ResourcePool R)
      → q.slots ≡ xs
      → (q' : ResourcePool R) × (n : ℕ) × (put_evict p (length xs) quiet size q ≡ some q')
        × (q'.slots ≡ drop n xs)
  unfolding put_evict
  put_evict_suffix size [] q e = (q, 0, refl, e)
  put_evict_suffix size (x ∷ xs) q e = elim (Bool-cases (enough p q size)) [
    | inl done ↦ (q, 0, rw (done, put_evict) refl, e)
    | inr more ↦
        let q0 : ResourcePool R = record q { slots = xs; bytes = sub64 q.bytes (p.bytes x) } in
        let popped : pop_oldest p q ≡ some (x, q0) = unfold pop_oldest in ground arith in
        let (q', n, ends, suffix) = put_evict_suffix size xs q0 refl in
        (q', suc n, rw (more, popped, put_evict) ends, suffix)
  ]

  placed_conserves :
      (reserved' : Bool) (x : R) (q q' : ResourcePool R) (f : R → ℕ)
      → sum_by f (put_last p reserved' x q').slots + sum_by f (unplaced reserved' x q')
        ≡ sum_by f q'.slots + f x
  placed_conserves reserved' x q q' f =
      elim (Bool-cases
        (ltb q'.budget (p.bytes x) || not (has_room p q' (p.bytes x)) || not reserved')) [
          | inl out ↦ rw out (omega arith)
          | inr kept ↦ rw kept (omega (arith, sum_by-append f q'.slots (x ∷ [])))
        ]

  displaced_conserves :
      (reserved' : Bool) (x : R) (q q' : ResourcePool R) (n : ℕ) (f : R → ℕ)
      → q'.slots ≡ drop n q.slots
      → sum_by f (put_last p reserved' x q').slots
          + sum_by f (take (length q.slots - length q'.slots) q.slots ++ unplaced reserved' x q')
        ≡ sum_by f q.slots + f x
  displaced_conserves reserved' x q q' n f suffix =
      let gone = take (length q.slots - length q'.slots) q.slots in
      let cut : sum_by f gone + sum_by f q'.slots ≡ sum_by f q.slots =
        rw suffix (sum_by-split f n q.slots) in
      omega (
        arith,
        cut,
        placed_conserves reserved' x q q' f,
        sum_by-append f gone (unplaced reserved' x q'),
      )

  put_conserves_fits :
      (reserved reserved' : Bool) (x : R) (q : ResourcePool R) (f : R → ℕ)
      → refused p q x ≡ false
      → (q' : ResourcePool R) × (put p reserved reserved' quiet x q ≡ some q')
        × (sum_by f q'.slots + sum_by f (put_destroys reserved reserved' x q)
            ≡ sum_by f q.slots + f x)
  unfolding put
  put_conserves_fits false reserved' x q f fits = (q, rw (fits, put) refl, rw fits (omega arith))
  put_conserves_fits true reserved' x q f fits =
      let (q', n, ends, suffix) = put_evict_suffix (p.bytes x) q.slots q refl in
      (
        put_last p reserved' x q',
        rw (fits, ends, put) refl,
        rw (fits, ends) (displaced_conserves reserved' x q q' n f suffix),
      )

  pub put_conserves :
      (reserved reserved' : Bool) (x : R) (q : ResourcePool R) (f : R → ℕ)
      → (q' : ResourcePool R) × (put p reserved reserved' quiet x q ≡ some q')
        × (sum_by f q'.slots + sum_by f (put_destroys reserved reserved' x q)
            ≡ sum_by f q.slots + f x)
  unfolding put
  put_conserves reserved reserved' x q f = elim (Bool-cases (refused p q x)) [
    | inl out ↦ (q, rw (out, put) refl, rw out (omega arith))
    | inr fits ↦ put_conserves_fits reserved reserved' x q f fits
  ]
