-- ===== src/Vram/Heaps.antt =====
-- Which heap the Vulkan query of src/vram.rs reads, and which adapter DXGI's does.
use gpu_info_rs.Prelude.{
  ℕ, ◌≤◌, ◌<◌, ◌≡◌, refl, ap, ◌⊎◌, inl, inr, true, ◌&&◌, Option, none, some, List, [], ◌∷◌, ◌++◌,
  ltb, ◌==◌, arith, All, Bool-cases,
}
use gpu_info_rs.Vram.Drivers.{Heap, best_heap, vulkan_query}

-- A heap that the device can use locally, of at most so many bytes; any other heap is no matter.
abbrev pub AtMost : ℕ → Heap → Type 0
AtMost n h = (h.device_local ≡ true) → h.size ≤ n

-- The scan keeps its heap where nothing local is larger, or ends at the first largest local heap.
best_heap_lem :
    (hs : List Heap) (best : Option Heap) (size : ℕ)
    → (best_heap hs best size ≡ best) × All (AtMost size) hs
      ⊎ ((pre : List Heap) × (h : Heap) × (post : List Heap) × (hs ≡ pre ++ h ∷ post)
          × (best_heap hs best size ≡ some h)
          × (h.device_local ≡ true)
          × (size < h.size)
          × All (λ g. (g.device_local ≡ true) → g.size < h.size) pre
          × All (AtMost h.size) post)
unfolding best_heap
best_heap_lem [] best size = inl (refl, tt)
best_heap_lem (g ∷ hs) best size = elim (Bool-cases (g.device_local && ltb size g.size)) [
  | inl taken ↦
      let larger : size < g.size = ground arith in
      let mine : g.device_local ≡ true = ground arith in
      elim (best_heap_lem hs (some g) g.size) [
        | inl (e, all) ↦ inr ([], g, hs, refl, rw (taken, e) refl, mine, larger, tt, all)
        | inr (pre, h, post, e, r, m, l, a, b) ↦ inr (
          g ∷ pre,
          h,
          post,
          ap (λ zs. g ∷ zs) e,
          rw (taken, r) refl,
          m,
          omega (arith, larger, l),
          (λ _. l, a),
          b,
        )
      ]
  | inr passed ↦
      let small : AtMost size g = λ mine. ground arith in
      elim (best_heap_lem hs best size) [
        | inl (e, all) ↦ inl (rw (passed, e) refl, (small, all))
        | inr (pre, h, post, e, r, m, l, a, b) ↦ inr (
          g ∷ pre,
          h,
          post,
          ap (λ zs. g ∷ zs) e,
          rw (passed, r) refl,
          m,
          l,
          (λ mine. omega (arith, l, small mine), a),
          b,
        )
      ]
]

-- The query gives the figures of the first of the largest device-local heaps, with a budget that
-- is not zero; it gives none exactly where no device-local heap has a size, or where that heap's
-- budget is zero.
pub vulkan_query_largest :
    (hs : List Heap)
    → (vulkan_query hs ≡ none) × All (AtMost 0) hs
      ⊎ ((pre : List Heap) × (h : Heap) × (post : List Heap) × (hs ≡ pre ++ h ∷ post)
          × (h.device_local ≡ true)
          × (0 < h.size)
          × All (λ g. (g.device_local ≡ true) → g.size < h.size) pre
          × All (AtMost h.size) post
          × ((h.budget ≡ 0) × (vulkan_query hs ≡ none)
              ⊎ (0 < h.budget)
                × (vulkan_query hs ≡ some (record { used = h.usage; budget = h.budget }))))
unfolding vulkan_query
vulkan_query_largest hs = elim (best_heap_lem hs none 0) [
  | inl (e, all) ↦ inl (rw e refl, all)
  | inr (pre, h, post, e, r, m, l, a, b) ↦ inr (
    pre,
    h,
    post,
    e,
    m,
    l,
    a,
    b,
    rw r (elim (Bool-cases (h.budget == 0)) [
      | inl zero ↦ inl (ground arith, rw zero refl)
      | inr full ↦ inr (ground arith, rw full refl)
    ]),
  )
]
