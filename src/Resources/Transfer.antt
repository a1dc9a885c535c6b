-- ===== src/Resources/Transfer.antt =====
-- How resources leave a batch, and what an upload checks (src/resources.rs).
use gpu_info_rs.Prelude.{
  ℕ, ◌+◌, ◌≤◌, ◌<◌, ◌≡◌, refl, sym, ap, ◌∙◌, ◌⊎◌, inl, inr, Bool, true, false, none, some, List, [],
  ◌∷◌, Result, ok, err, arith, get_elem?, set, Option-cases, Bool-cases, Result-cases,
}
use gpu_info_rs.Resources.Wgpu.{Wgpu}
use gpu_info_rs.Resources.Spec.{ResourceError, slot, upload_state, BufferSpec, Spec, staging}
use gpu_info_rs.Resources.Prepare.{Owned}
use gpu_info_rs.Resources.Batch.{Batch, take_slot, refuses_upload, upload}

get_elem?-set {ℓ} :
    {A : Type ℓ} (xs : List A) (i : ℕ) (x y : A)
    → get_elem? xs i ≡ some y
    → get_elem? (set xs i x) i ≡ some x
get_elem?-set [] i x y h = ground arith
get_elem?-set (z ∷ zs) ℕ.zero x y h = refl
get_elem?-set (z ∷ zs) (ℕ.suc i) x y h = get_elem?-set zs i x y h

given {ℓ κ ι} :
    {A : Type ℓ} {B : Type κ} {E : Type ι} (p o : A) (xs ys : B)
    → ◌≡◌ {A = Result A E × B} (ok p, xs) (ok o, ys)
    → (p ≡ o) × (xs ≡ ys)
given p o xs ys h = (cc, cc)

module _ (w : Wgpu) (Native : Type 0) (spec_eq : Spec w → Spec w → Bool)
    (create : Spec w → Native) where
  take_slot-empty :
      (kind : Spec w → Bool) (slots : Batch w Native spec_eq create) (index : ℕ)
      → get_elem? slots index ≡ some none
      → take_slot w Native spec_eq create kind slots index ≡ (err slot, slots)
  unfolding take_slot
  take_slot-empty kind slots index h = rw (h, take_slot)

  -- A slot is transferred once: it gives the owner that it holds, of the kind that is asked for, and
  -- then is empty, so that no later request of either kind gets anything from it.
  pub take_slot_once :
      (kind later : Spec w → Bool) (slots slots' : Batch w Native spec_eq create) (index : ℕ)
      (o : Owned w Native spec_eq create)
      → take_slot w Native spec_eq create kind slots index ≡ (ok o, slots')
      → (kind o.allocation.resource.spec ≡ true)
        × (get_elem? slots index ≡ some (some o))
        × (slots' ≡ set slots index none)
        × (take_slot w Native spec_eq create later slots' index ≡ (err slot, slots'))
  unfolding take_slot
  take_slot_once kind later slots slots' index o h = elim (Option-cases (get_elem? slots index)) [
    | inl e ↦ let h' = rw (e, take_slot) at h in absurd (ground arith)
    | inr (s, e) ↦ elim (Option-cases s) [
      | inl n ↦ let h' = rw (e, n, take_slot) at h in absurd (ground arith)
      | inr (p, n) ↦ elim (Bool-cases (kind p.allocation.resource.spec)) [
        | inr f ↦ let h' = rw (e, n, f, take_slot) at h in absurd (ground arith)
        | inl t ↦
            let (gave, left) =
              given p o (set slots index none) slots' (rw (e, n, t, take_slot) at h) in
            let held = e ∙ ap some n in
            let empty =
              ap (λ xs. get_elem? xs index) (sym left)
              ∙ get_elem?-set slots index none (some p) held in
            (
              ap (λ o. kind o.allocation.resource.spec) (sym gave) ∙ t,
              held ∙ ap (λ o. some (some o)) gave,
              sym left,
              take_slot-empty later slots' index empty,
            )
      ]
    ]
  ]

module _ (w : Wgpu) where
  -- An upload succeeds only on the sole owner of a mapped staging buffer, within the buffer's size,
  -- and leaves it unmapped; a refusal leaves the mapping as it was.
  pub upload_effect :
      (owners : ℕ) (s : BufferSpec w) (mapped : Bool) (offset length : ℕ)
      (range : Result (Unit {0}) (ResourceError w))
      → let (r, mapped') = upload w owners s mapped offset length range in
        (r ≡ ok tt)
          × (owners ≡ 1)
          × (staging w s ≡ true)
          × (mapped ≡ true)
          × (0 < length)
          × (offset + length ≤ s.size)
          × (mapped' ≡ false)
        ⊎ ((e : ResourceError w) × (r ≡ err e) × (mapped' ≡ mapped))
  unfolding upload
  upload_effect owners s mapped offset length range =
      elim (Bool-cases (refuses_upload w owners s mapped offset length)) [
        | inl y ↦ rw (y, upload) (inr (upload_state, refl, refl))
        | inr y ↦ elim (Result-cases range) [
          | inl (_, z) ↦
              rw (y, z, upload)
                (inl (
                  refl,
                  ground arith,
                  ground arith,
                  ground arith,
                  ground arith,
                  ground arith,
                  refl,
                ))
          | inr (e, z) ↦ rw (y, z, upload) (inr (e, refl, refl))
        ]
      ]
