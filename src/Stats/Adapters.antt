-- ===== src/Stats/Adapters.antt =====
-- Which adapters `Adapter::open_all` (src/stats/windows.rs) lists, and in which order.
use gpu_info_rs.Prelude.{
  ℕ, ◌≤◌, ◌≡◌, refl, ap, ◌∙◌, inl, inr, true, false, not, List, [], ◌∷◌, Option, All, arith, leb,
  ◌==◌, if◌then◌else◌, Bool-cases,
}
use gpu_info_rs.Stats.Windows.{
  Adapter, AdapterDesc, enumerate, any_discrete, discrete_only, insert, sort, open_all,
}

-- The adapters of one size, in their order.
abbrev pub of_size : ℕ → List Adapter → List Adapter
of_size n [] = []
of_size n (a ∷ rest) = if a.total_bytes == n then a ∷ of_size n rest else of_size n rest

-- From the largest on.
abbrev pub Descending : List Adapter → Type 0
Descending [] = Unit
Descending (a ∷ rest) = All (λ b. b.total_bytes ≤ a.total_bytes) rest × Descending rest

All-insert :
    (P : Adapter → Type 0) (a : Adapter) (xs : List Adapter) → P a → All P xs → All P (insert a xs)
All-insert P a [] h k = (h, tt)
All-insert P a (b ∷ bs) h (p, k) = elim (Bool-cases (leb b.total_bytes a.total_bytes)) [
  | inl front ↦ rw front (h, (p, k))
  | inr behind ↦ rw behind (p, All-insert P a bs h k)
]

All-sort : (P : Adapter → Type 0) (xs : List Adapter) → All P xs → All P (sort xs)
All-sort P [] k = tt
All-sort P (a ∷ xs) (h, k) = All-insert P a (sort xs) h (All-sort P xs k)

All-below :
    (n m : ℕ) (xs : List Adapter)
    → n ≤ m
    → All (λ b. b.total_bytes ≤ n) xs
    → All (λ b. b.total_bytes ≤ m) xs
All-below n m [] h k = tt
All-below n m (b ∷ bs) h (p, k) = (omega arith, All-below n m bs h k)

insert-Descending : (a : Adapter) (xs : List Adapter) → Descending xs → Descending (insert a xs)
insert-Descending a [] d = (tt, tt)
insert-Descending a (b ∷ bs) (below, d) = elim (Bool-cases (leb b.total_bytes a.total_bytes)) [
  | inl front ↦
      let h : b.total_bytes ≤ a.total_bytes = ground arith in
      rw front ((h, All-below b.total_bytes a.total_bytes bs h below), (below, d))
  | inr behind ↦ rw behind (
    All-insert (λ c. c.total_bytes ≤ b.total_bytes) a bs (ground arith) below,
    insert-Descending a bs d,
  )
]

sort-Descending : (xs : List Adapter) → Descending (sort xs)
sort-Descending [] = tt
sort-Descending (a ∷ xs) = insert-Descending a (sort xs) (sort-Descending xs)

of_size-insert :
    (n : ℕ) (a : Adapter) (xs : List Adapter) → of_size n (insert a xs) ≡ of_size n (a ∷ xs)
of_size-insert n a [] = refl
of_size-insert n a (b ∷ bs) = elim (Bool-cases (leb b.total_bytes a.total_bytes)) [
  | inl front ↦ rw front refl
  | inr behind ↦ rw behind (ground (arith, of_size-insert n a bs))
]

of_size-sort : (n : ℕ) (xs : List Adapter) → of_size n (sort xs) ≡ of_size n xs
of_size-sort n [] = refl
of_size-sort n (a ∷ xs) =
    of_size-insert n a (sort xs)
    ∙ ap (λ ys. if a.total_bytes == n then a ∷ ys else ys) (of_size-sort n xs)

discrete_only-All : (xs : List Adapter) → All (λ a. a.unified ≡ false) (discrete_only xs)
discrete_only-All [] = tt
discrete_only-All (a ∷ xs) = elim (Bool-cases a.unified) [
  | inl shared ↦ rw shared (discrete_only-All xs)
  | inr own ↦ rw own (refl, discrete_only-All xs)
]

any_discrete-All : (xs : List Adapter) → any_discrete xs ≡ false → All (λ a. a.unified ≡ true) xs
any_discrete-All [] e = tt
any_discrete-All (a ∷ xs) e = (ground arith, any_discrete-All xs (ground arith))

-- The adapters that are listed: the discrete ones, if there is one.
abbrev pub selected : List Adapter → List Adapter
selected xs = if any_discrete xs then discrete_only xs else xs

selected-All : (xs : List Adapter) → All (λ a. a.unified ≡ not (any_discrete xs)) (selected xs)
selected-All xs = elim (Bool-cases (any_discrete xs)) [
  | inl own ↦ rw own (discrete_only-All xs)
  | inr shared ↦ rw shared (any_discrete-All xs shared)
]

-- The list goes from the largest adapter on; the adapters of each size are those of the enumeration
-- in its order, without the integrated ones where there is a discrete one, so that either all are
-- discrete or all are integrated.
pub open_all_listed :
    (ds : List (Option AdapterDesc))
    → let list = open_all ds in
      Descending list
      × ((n : ℕ) → of_size n list ≡ of_size n (selected (enumerate ds)))
      × All (λ a. a.unified ≡ not (any_discrete (enumerate ds))) list
unfolding open_all
open_all_listed ds =
    let xs = selected (enumerate ds) in
    (
      sort-Descending xs,
      (λ n. of_size-sort n xs),
      All-sort (λ a. a.unified ≡ not (any_discrete (enumerate ds))) xs
          (selected-All (enumerate ds)),
    )
