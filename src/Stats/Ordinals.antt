-- ===== src/Stats/Ordinals.antt =====
-- The ordinals of src/stats.rs count the earlier adapters of the same name.
use gpu_info_rs.Prelude.{
  ℕ, suc, ◌+◌, ◌≡◌, refl, sym, ◌∙◌, inl, inr, ◌↔◌, true, false, List, [], ◌∷◌, ◌++◌, arith,
  if◌then◌else◌, Bool-cases,
}
use gpu_info_rs.Stats.Names.{Name, name_eq}
use gpu_info_rs.Stats.{bump, ordinals}

-- How often a name stands in a list.
abbrev pub occurrences : Name → List Name → ℕ
occurrences key [] = 0
occurrences key (k ∷ ks) = (if name_eq k key then 1 else 0) + occurrences key ks

-- For each name, how often it stood before.
abbrev pub earlier : List Name → List Name → List ℕ
earlier before [] = []
earlier before (key ∷ keys) = occurrences key before ∷ earlier (before ++ key ∷ []) keys

name_eq-true : (a b : Name) → name_eq a b ≡ true → a ≡ b
name_eq-true [] [] e = refl
name_eq-true [] (y ∷ b) e = absurd (ground arith)
name_eq-true (x ∷ a) [] e = absurd (ground arith)
name_eq-true (x ∷ a) (y ∷ b) e =
    let head : x ≡ y = ground arith in
    let tail : name_eq a b ≡ true = ground arith in cc (head, name_eq-true a b tail)

pub name_eq_refl : (a : Name) → name_eq a a ≡ true
name_eq_refl [] = refl
name_eq_refl (x ∷ a) = ground (arith, name_eq_refl a)

pub name_eq_iff : (a b : Name) → (name_eq a b ≡ true) ↔ (a ≡ b)
name_eq_iff a b = (name_eq-true a b, λ e. rw e (name_eq_refl b))

occurrences-append :
    (key : Name) (xs ys : List Name)
    → occurrences key (xs ++ ys) ≡ occurrences key xs + occurrences key ys
occurrences-append key [] ys = omega arith
occurrences-append key (x ∷ xs) ys = omega (arith, occurrences-append key xs ys)

other_name : (a key k : Name) → name_eq a key ≡ false → name_eq a k ≡ true → name_eq key k ≡ false
other_name a key k miss here = elim (Bool-cases (name_eq key k)) [
  | inr there ↦ there
  | inl same ↦
      let equal : a ≡ key = name_eq-true a k here ∙ sym (name_eq-true key k same) in
      let hit : name_eq a key ≡ true = rw equal (name_eq_refl key) in absurd (ground arith)
]

-- Counting one name raises what is next given to it, and to no other.
bump-bump :
    (k key : Name) (seen : List (Name × ℕ))
    → (bump k (bump key seen).1).0
      ≡ (if name_eq key k then suc (bump k seen).0 else (bump k seen).0)
bump-bump k key [] = elim (Bool-cases (name_eq key k)) [
  | inl here ↦ rw here refl
  | inr there ↦ rw there refl
]
bump-bump k key ((a, c) ∷ seen) = elim (Bool-cases (name_eq a key)) [
  | inl hit ↦
      let same : name_eq a k ≡ name_eq key k = rw (name_eq-true a key hit) refl in
      elim (Bool-cases (name_eq key k)) [
        | inl here ↦ rw (hit, same, here) refl
        | inr there ↦ rw (hit, same, there) refl
      ]
  | inr miss ↦ elim (Bool-cases (name_eq a k)) [
    | inl here ↦
        let same : name_eq key k ≡ false = other_name a key k miss here in
        rw (miss, here, same) refl
    | inr there ↦ rw (miss, there) (bump-bump k key seen)
  ]
]

module _ (seen : List (Name × ℕ)) (before : List Name) where
  abbrev Tracks : Type 0
  Tracks = (k : Name) → (bump k seen).0 ≡ occurrences k before

bump-Tracks :
    (key : Name) (seen : List (Name × ℕ)) (before : List Name)
    → Tracks seen before
    → Tracks (bump key seen).1 (before ++ key ∷ [])
bump-Tracks key seen before t k = elim (Bool-cases (name_eq key k)) [
  | inl here ↦ ground (arith, bump-bump k key seen, t k, occurrences-append k before (key ∷ []))
  | inr there ↦ ground (arith, bump-bump k key seen, t k, occurrences-append k before (key ∷ []))
]

ordinals-earlier :
    (seen : List (Name × ℕ)) (before keys : List Name)
    → Tracks seen before
    → ordinals seen keys ≡ earlier before keys
unfolding ordinals
ordinals-earlier seen before [] t = refl
ordinals-earlier seen before (key ∷ keys) t = cc (
  t key,
  ordinals-earlier (bump key seen).1 (before ++ key ∷ []) keys (bump-Tracks key seen before t),
)

-- The ordinal of each adapter is the number of earlier adapters of the same name.
pub ordinals_count : (keys : List Name) → ordinals [] keys ≡ earlier [] keys
ordinals_count keys = ordinals-earlier [] [] keys (λ k. refl)
