-- ===== src/Prelude/Removal.antt =====
-- `Vec::swap_remove`, and sums over parts of lists.
use Prim.Native.Nat.{ℕ, zero, suc, ◌+◌, ◌-◌, ◌≤◌}
use mathlib.Core.Path.{◌≡◌, refl, ap, ◌∙◌}
use mathlib.Core.List.{List, [], ◌∷◌}
use mathlib.Core.Option.{Option, none, some}
use native.Mathlib.Omega.{arith}
use gpu_info_rs.Prelude.Lists.{length, get_elem?, set, take, drop, sum_by, sum_by-set}

abbrev pub last {ℓ} : {A : Type ℓ} → List A → Option A
last [] = none
last (x ∷ []) = some x
last (x ∷ y ∷ ys) = last (y ∷ ys)

abbrev pub init {ℓ} : {A : Type ℓ} → List A → List A
init [] = []
init (x ∷ []) = []
init (x ∷ y ∷ ys) = x ∷ init (y ∷ ys)

-- The last element takes the place of the removed one.
abbrev pub moved {ℓ} : {A : Type ℓ} → ℕ → List A → Option A → List A
moved at xs none = xs
moved at xs (some x) = init (set xs at x)

-- `Vec::swap_remove` without its panic.
abbrev pub swap_remove {ℓ} : {A : Type ℓ} → ℕ → List A → List A
swap_remove at xs = moved at xs (last xs)

module _ {ℓ} {R : Type ℓ} where
  length-drop : (n : ℕ) (xs : List R) → length (drop n xs) ≤ length xs
  length-drop zero xs = omega arith
  length-drop (suc n) [] = omega arith
  length-drop (suc n) (x ∷ xs) = omega (arith, length-drop n xs)

  -- A suffix, and what is before it.
  pub sum_by-split :
      (f : R → ℕ) (n : ℕ) (xs : List R)
      → sum_by f (take (length xs - length (drop n xs)) xs) + sum_by f (drop n xs) ≡ sum_by f xs
  sum_by-split f zero xs =
      let none_before : length xs - length xs ≡ 0 = omega arith in rw none_before (omega arith)
  sum_by-split f (suc n) [] = refl
  sum_by-split f (suc n) (x ∷ xs) =
      let h = length-drop n xs in
      let one : suc (length xs) - length (drop n xs) ≡ suc (length xs - length (drop n xs)) =
        omega (arith, h) in
      rw one (omega (arith, sum_by-split f n xs))

  last-set : (xs : List R) (i : ℕ) (x : R) → last xs ≡ some x → last (set xs i x) ≡ some x
  last-set [] i x e = e
  last-set (y ∷ []) zero x e = refl
  last-set (y ∷ []) (suc i) x e = e
  last-set (y ∷ z ∷ zs) zero x e = e
  last-set (y ∷ z ∷ zs) (suc zero) x e = last-set (z ∷ zs) zero x e
  last-set (y ∷ z ∷ zs) (suc (suc i)) x e = last-set (z ∷ zs) (suc i) x e

  sum_by-init :
      (f : R → ℕ) (xs : List R) (x : R) → last xs ≡ some x → sum_by f (init xs) + f x ≡ sum_by f xs
  sum_by-init f [] x e = ground arith
  sum_by-init f (y ∷ []) x e = ground arith
  sum_by-init f (y ∷ z ∷ zs) x e = omega (arith, sum_by-init f (z ∷ zs) x e)

  last-some : (xs : List R) (i : ℕ) (x : R) → get_elem? xs i ≡ some x → (y : R) × (last xs ≡ some y)
  last-some [] i x e = ground arith
  last-some (y ∷ []) i x e = (y, refl)
  last-some (y ∷ z ∷ zs) zero x e = last-some (z ∷ zs) zero z refl
  last-some (y ∷ z ∷ zs) (suc i) x e = last-some (z ∷ zs) i x e

  pub sum_by-swap_remove :
      (f : R → ℕ) (i : ℕ) (xs : List R) (x : R)
      → get_elem? xs i ≡ some x
      → sum_by f (swap_remove i xs) + f x ≡ sum_by f xs
  sum_by-swap_remove f i xs x e =
      let (y, l) = last-some xs i x e in
      rw l
        (omega (arith, sum_by-init f (set xs i y) y (last-set xs i y l), sum_by-set f i xs x y e))

  length-init : (xs : List R) (x : R) → last xs ≡ some x → suc (length (init xs)) ≡ length xs
  length-init [] x e = absurd (ground arith)
  length-init (y ∷ []) x e = refl
  length-init (y ∷ z ∷ zs) x e = omega (arith, length-init (z ∷ zs) x e)

  length-set : (xs : List R) (i : ℕ) (x : R) → length (set xs i x) ≡ length xs
  length-set [] i x = refl
  length-set (y ∷ ys) zero x = refl
  length-set (y ∷ ys) (suc i) x = omega (arith, length-set ys i x)

  pub length-swap_remove :
      (i : ℕ) (xs : List R) (x : R)
      → get_elem? xs i ≡ some x
      → suc (length (swap_remove i xs)) ≡ length xs
  length-swap_remove i xs x e =
      let (y, l) = last-some xs i x e in
      rw l (omega (arith, length-init (set xs i y) y (last-set xs i y l), length-set xs i y))

  take-init : (i : ℕ) (xs : List R) → suc i ≤ length xs → take i (init xs) ≡ take i xs
  take-init zero xs h = refl
  take-init (suc i) [] h = refl
  take-init (suc i) (y ∷ []) h = absurd (omega arith)
  take-init (suc i) (y ∷ z ∷ zs) h = ap (λ ys. y ∷ ys) (take-init i (z ∷ zs) (omega arith))

  take-set : (i : ℕ) (xs : List R) (x : R) → take i (set xs i x) ≡ take i xs
  take-set zero xs x = refl
  take-set (suc i) [] x = refl
  take-set (suc i) (y ∷ ys) x = ap (λ zs. y ∷ zs) (take-set i ys x)

  get_elem?-below : (i : ℕ) (xs : List R) (x : R) → get_elem? xs i ≡ some x → suc i ≤ length xs
  get_elem?-below i [] x e = absurd (ground arith)
  get_elem?-below zero (y ∷ ys) x e = omega arith
  get_elem?-below (suc i) (y ∷ ys) x e = omega (arith, get_elem?-below i ys x e)

  -- What stands before the removed element stays.
  pub take-swap_remove :
      (i : ℕ) (xs : List R) (x : R)
      → get_elem? xs i ≡ some x
      → take i (swap_remove i xs) ≡ take i xs
  take-swap_remove i xs x e =
      let (y, l) = last-some xs i x e in
      rw l (
        take-init i (set xs i y) (rw (length-set xs i y) (get_elem?-below i xs x e))
        ∙ take-set i xs y)
