-- ===== src/Resources/Harvest.antt =====
-- The first loop of `Resources::collect` (src/resources.rs) takes the settled remaps and no other.
use gpu_info_rs.Prelude.{
  ℕ, zero, suc, ◌+◌, ◌≤◌, ◌≡◌, refl, subst, inl, inr, Bool, true, false, Option, none, some, List,
  [], ◌∷◌, ◌++◌, arith, length, take, get_elem?, All, sum_by, sum_by-append, swap_remove,
  sum_by-swap_remove, take-swap_remove, length-swap_remove, Bool-cases, Option-cases,
}
use gpu_info_rs.Wait.Error.{Outcome}
use gpu_info_rs.Resources.Wgpu.{Wgpu}
use gpu_info_rs.Resources.Spec.{Spec}
use gpu_info_rs.Resources.Recycle.{Remap, settled, harvest}

module _ {ℓ} {A : Type ℓ} where
  All-append : (P : A → Type 0) (xs ys : List A) → All P xs → All P ys → All P (xs ++ ys)
  All-append P [] ys a b = b
  All-append P (x ∷ xs) ys (h, a) b = (h, All-append P xs ys a b)

  All-take-none :
      (P : A → Type 0) (n : ℕ) (xs : List A) → get_elem? xs n ≡ none → All P (take n xs) → All P xs
  All-take-none P n [] e a = tt
  All-take-none P zero (x ∷ xs) e a = absurd (ground arith)
  All-take-none P (suc n) (x ∷ xs) e (h, a) = (h, All-take-none P n xs e a)

  All-take-suc :
      (P : A → Type 0) (n : ℕ) (xs : List A) (x : A)
      → get_elem? xs n ≡ some x
      → P x
      → All P (take n xs)
      → All P (take (suc n) xs)
  All-take-suc P n [] x e h a = tt
  All-take-suc P zero (y ∷ xs) x e h a = let same : x ≡ y = cc (e) in (subst P same h, tt)
  All-take-suc P (suc n) (y ∷ xs) x e h (k, a) = (k, All-take-suc P n xs x e h a)

  get_elem?-length-none : (n : ℕ) (xs : List A) → length xs ≤ n → get_elem? xs n ≡ none
  get_elem?-length-none n [] h = refl
  get_elem?-length-none zero (x ∷ xs) h = absurd (omega arith)
  get_elem?-length-none (suc n) (x ∷ xs) h = get_elem?-length-none n xs (omega arith)

module _ (w : Wgpu) (Native : Type 0) (spec_eq : Spec w → Spec w → Bool)
    (create : Spec w → Native) where
  -- The bytes of buffers that wait to be mapped.
  abbrev pub waiting : List (Remap w Native spec_eq create) → ℕ
  waiting = sum_by (λ m. m.allocation.charge.bytes)

  module _ (heard : ℕ → Option Outcome) where
    abbrev Open : Remap w Native spec_eq create → Type 0
    Open m = settled w Native spec_eq create heard m ≡ false

    abbrev Done : Remap w Native spec_eq create → Type 0
    Done m = settled w Native spec_eq create heard m ≡ true

    harvest_lem :
        (n at : ℕ) (remaps completed : List (Remap w Native spec_eq create))
        → length remaps ≤ n + at
        → All Open (take at remaps)
        → All Done completed
        → let (left, taken) = harvest w Native spec_eq create heard n at remaps completed in
          All Open left
          × All Done taken
          × (waiting left + waiting taken ≡ waiting remaps + waiting completed)
    unfolding harvest
    harvest_lem zero at remaps completed h a d =
        (All-take-none Open at remaps (get_elem?-length-none at remaps (omega arith)) a, d, refl)
    harvest_lem (suc n) at remaps completed h a d = elim (Option-cases (get_elem? remaps at)) [
      | inl e ↦ rw (e, harvest) (All-take-none Open at remaps e a, d, refl)
      | inr (m, e) ↦ elim (Bool-cases (settled w Native spec_eq create heard m)) [
        | inl s ↦
            let (x, y, z) =
              harvest_lem n at (swap_remove at remaps) (completed ++ m ∷ [])
                (omega (arith, length-swap_remove at remaps m e))
                (rw (take-swap_remove at remaps m e) a)
                (All-append Done completed (m ∷ []) d (s, tt)) in
            rw (e, s, harvest)
              (
                x,
                y,
                omega (
                  arith,
                  z,
                  sum_by-append (λ m. m.allocation.charge.bytes) completed (m ∷ []),
                  sum_by-swap_remove (λ m. m.allocation.charge.bytes) at remaps m e,
                ),
              )
        | inr o ↦
            rw (e, o, harvest)
              (harvest_lem n (suc at) remaps completed (omega arith)
                (All-take-suc Open at remaps m e o a) d)
      ]
    ]

    -- The loop leaves the remaps whose signal is not set, takes those whose is, and loses none.
    pub harvest-All :
        (remaps : List (Remap w Native spec_eq create))
        → let (left, taken) = harvest w Native spec_eq create heard (length remaps) 0 remaps [] in
          All Open left × All Done taken × (waiting left + waiting taken ≡ waiting remaps)
    harvest-All remaps =
        let (x, y, z) = harvest_lem (length remaps) 0 remaps [] (omega arith) tt tt in
        (x, y, omega (arith, z))
