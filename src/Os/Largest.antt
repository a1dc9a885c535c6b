-- ===== src/Os/Largest.antt =====
-- Which GPU `linux_query` (src/os.rs) reports, and that figures are within bounds.
use gpu_info_rs.Prelude.{
  ℕ, ◌≤◌, ◌<◌, ◌≡◌, refl, ◌⊎◌, inl, inr, none, some, List, [], ◌∷◌, ◌++◌, ap, arith, All, leb, ltb,
  Bool-cases, Option-cases,
}
use gpu_info_rs.Stats.Floats.{Float}
use gpu_info_rs.Stats.{GpuStats}
use gpu_info_rs.Os.{GpuMemInfo, sized_info, and_more, usable, largest_from, largest, linux_query}

-- A figure that can be used: some memory, no more of it free than there is.
abbrev pub Bounded : GpuMemInfo → Type 0
Bounded g = (0 < g.dedicated_vram) × (g.free_vram ≤ g.dedicated_vram)

-- The search keeps its candidate where all others are smaller, or ends at the last of the largest.
largest_from_lem :
    (best : GpuMemInfo) (gs : List GpuMemInfo)
    → (largest_from_is : GpuMemInfo) × (largest_from best gs ≡ largest_from_is)
      × ((largest_from_is ≡ best) × All (λ g. g.dedicated_vram < best.dedicated_vram) gs
          ⊎ ((pre : List GpuMemInfo) × (post : List GpuMemInfo) × (gs
                ≡ pre ++ largest_from_is ∷ post)
              × (best.dedicated_vram ≤ largest_from_is.dedicated_vram)
              × All (λ g. g.dedicated_vram ≤ largest_from_is.dedicated_vram) pre
              × All (λ g. g.dedicated_vram < largest_from_is.dedicated_vram) post))
largest_from_lem best [] = (best, refl, inl (refl, tt))
largest_from_lem best (g ∷ gs) = elim (Bool-cases (leb best.dedicated_vram g.dedicated_vram)) [
  | inl over ↦
      let (m, e, found) = largest_from_lem g gs in
      rw over (
        m,
        e,
        inr (elim found [
          | inl (same, small) ↦ ([], gs, rw same refl, rw same (ground arith), tt, rw same small)
          | inr (pre, post, split, up, before, after) ↦
              (g ∷ pre, post, ap (λ zs. g ∷ zs) split, ground arith, (up, before), after)
        ]),
      )
  | inr under ↦
      let (m, e, found) = largest_from_lem best gs in
      rw under (
        m,
        e,
        elim found [
          | inl (same, small) ↦ inl (same, (ground arith, small))
          | inr (pre, post, split, up, before, after) ↦
              inr (g ∷ pre, post, ap (λ zs. g ∷ zs) split, up, (ground arith, before), after)
        ],
      )
]

-- The chosen GPU has the most dedicated memory, and is the last one of those.
abbrev pub LastLargest : GpuMemInfo → List GpuMemInfo → Type 0
LastLargest m gs =
    (pre : List GpuMemInfo) × (post : List GpuMemInfo) × (gs ≡ pre ++ m ∷ post)
    × All (λ g. g.dedicated_vram ≤ m.dedicated_vram) pre
    × All (λ g. g.dedicated_vram < m.dedicated_vram) post

largest_lem :
    (gs : List GpuMemInfo)
    → (largest gs ≡ none) × (gs ≡ [])
      ⊎ ((m : GpuMemInfo) × (largest gs ≡ some m) × LastLargest m gs)
largest_lem [] = inl (refl, refl)
largest_lem (g ∷ gs) =
    let (m, e, found) = largest_from_lem g gs in
    inr (
      m,
      ap (λ x. some x) e,
      elim found [
        | inl (same, small) ↦ ([], gs, rw same refl, tt, rw same small)
        | inr (pre, post, split, up, before, after) ↦
            (g ∷ pre, post, ap (λ zs. g ∷ zs) split, (up, before), after)
      ],
    )

module _ (fl : Float) where
  sized_info-Bounded :
      (st : GpuStats fl) (rest : List GpuMemInfo) (total : ℕ)
      → All Bounded rest
      → All Bounded (and_more (sized_info fl st total) rest)
  sized_info-Bounded st rest total k = elim (Bool-cases (ltb 0 total)) [
    | inl some_memory ↦ rw some_memory ((ground arith, omega arith), k)
    | inr no_memory ↦ rw no_memory k
  ]

  usable-Bounded : (stats : List (GpuStats fl)) → All Bounded (usable fl stats)
  unfolding usable
  usable-Bounded [] = tt
  usable-Bounded (st ∷ rest) = elim (Option-cases st.mem_total_bytes) [
    | inl unknown_total ↦ rw unknown_total (usable-Bounded rest)
    | inr (total, e) ↦ rw e (sized_info-Bounded st (usable fl rest) total (usable-Bounded rest))
  ]

  -- Of the GPUs that report memory, the one with the most dedicated memory is given, the last one
  -- where several have it; there is none only where no GPU reports memory. Each figure has
  -- dedicated memory, and no more of it free than there is.
  pub linux_query_largest :
      (stats : List (GpuStats fl))
      → All Bounded (usable fl stats)
        × ((linux_query fl stats ≡ none) × (usable fl stats ≡ [])
            ⊎ ((m : GpuMemInfo) × (linux_query fl stats ≡ some m)
                × LastLargest m (usable fl stats)))
  unfolding linux_query
  linux_query_largest stats = (usable-Bounded stats, largest_lem (usable fl stats))
