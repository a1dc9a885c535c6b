-- ===== src/Pool/Lookup.antt =====
-- `ResourcePool::take` (src/pool.rs) gives the most recently returned resource of the key.
use gpu_info_rs.Prelude.{
  ◌≡◌, refl, ap, ◌⊎◌, inl, inr, Bool, true, false, none, some, List, [], ◌∷◌, ◌++◌, sub64, length,
  get_elem?, remove_at, All, get_elem?-length, remove_at-length, Bool-cases,
}
use gpu_info_rs.Pool.Interface.{Pooled}
use gpu_info_rs.Pool.{ResourcePool, rposition, take}

-- The elements of the list fail the test.
abbrev pub Fails {ℓ} : {A : Type ℓ} → (A → Bool) → List A → Type 0
Fails f = All (λ x. f x ≡ false)

-- A position splits the list at the last element that passes.
rposition_lem {ℓ} :
    {A : Type ℓ} (f : A → Bool) (xs : List A)
    → (rposition f xs ≡ none) × Fails f xs
      ⊎ ((pre : List A) × (x : A) × (post : List A) × (xs ≡ pre ++ x ∷ post)
          × (f x ≡ true)
          × Fails f post
          × (rposition f xs ≡ some (length pre)))
unfolding rposition
rposition_lem f [] = inl (refl, tt)
rposition_lem f (x ∷ xs) = elim (rposition_lem f xs) [
  | inl (e, miss) ↦ elim (Bool-cases (f x)) [
    | inl hit ↦ inr ([], x, xs, refl, hit, miss, rw (e, hit, rposition))
    | inr no_hit ↦ inl (rw (e, no_hit, rposition), (no_hit, miss))
  ]
  | inr (pre, y, post, e, hit, miss, at) ↦
      inr (x ∷ pre, y, post, ap (λ zs. x ∷ zs) e, hit, miss, rw (at, rposition))
]

split_at {ℓ} :
    {A : Type ℓ} (xs pre : List A) (x : A) (post : List A)
    → xs ≡ pre ++ x ∷ post
    → (get_elem? xs (length pre) ≡ some x) × (remove_at (length pre) xs ≡ pre ++ post)
split_at xs pre x post e = (rw e (get_elem?-length pre x post), rw e (remove_at-length pre x post))

module _ {ℓ} {R : Type ℓ} (p : Pooled R) (q : ResourcePool R) (key : p.Key) where
  abbrev pub matches : R → Bool
  matches slot = p.key_eq (p.key slot) key

  -- Either no idle resource has the key, and nothing changes, or the last one that has it is given
  -- and leaves the others in their order, its bytes taken off the count.
  pub take_latest :
      (take p q key ≡ (none, q)) × Fails matches q.slots
      ⊎ ((pre : List R) × (slot : R) × (post : List R) × (q.slots ≡ pre ++ slot ∷ post)
          × (matches slot ≡ true)
          × Fails matches post
          × (take p q key ≡ (
            some slot,
            record q { slots = pre ++ post; bytes = sub64 q.bytes (p.bytes slot) },
          )))
  unfolding take
  take_latest = elim (rposition_lem matches q.slots) [
    | inl (e, miss) ↦ inl (rw (e, take), miss)
    | inr (pre, slot, post, e, hit, miss, at) ↦
        let (there, gone) = split_at q.slots pre slot post e in
        inr (pre, slot, post, e, hit, miss, rw (at, there, gone, take))
  ]
