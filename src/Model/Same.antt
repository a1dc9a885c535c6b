-- ===== src/Model/Same.antt =====
-- When two reports of src/model.rs do not differ.
use Prim.Native.String.{String}
use gpu_info_rs.Prelude.{
  ◌≡◌, refl, subst, inl, inr, Bool, true, Option, none, some, List, [], ◌∷◌, ◌++◌, arith, All,
  string_eq, string_eq_iff, Bool-cases,
}
use gpu_info_rs.Model.Json.{
  Value, Elements, Members, array, object, done, item, end, member, keys, get, scalar_eq,
}
use gpu_info_rs.Model.Diff.{precedes, insert, sort, dedup_from, dedup, followed}

mutual
  -- Two values are the same: equal scalars, arrays of the same elements, or objects that have the same
  -- under every key.
  pub data Same {N : Type 0} (number_eq : N → N → Bool) : Value N → Value N → Type 0 where
    scalars : {a b : Value N} → scalar_eq number_eq a b ≡ true → Same number_eq a b
    arrays :
        {aa ab : Elements N} → SameElements number_eq aa ab → Same number_eq (array aa) (array ab)
    objects :
        {ma mb : Members N}
        → ((k : String) → SameFound number_eq (get ma k) (get mb k))
        → Same number_eq (object ma) (object mb)

  pub data SameElements {N : Type 0} (number_eq : N → N → Bool)
      : Elements N → Elements N → Type 0 where
    both_done : SameElements number_eq done done
    both_item :
        {a b : Value N} {aa ab : Elements N}
        → Same number_eq a b
        → SameElements number_eq aa ab
        → SameElements number_eq (item a aa) (item b ab)

  pub data SameFound {N : Type 0} (number_eq : N → N → Bool)
      : Option (Value N) → Option (Value N) → Type 0 where
    neither : SameFound number_eq none none
    both : {a b : Value N} → Same number_eq a b → SameFound number_eq (some a) (some b)

-- What holds of the keys that the sorted list without repetitions has, holds of all.
module _ (P : String → Type 0) where
  All-insert : (k : String) (ks : List String) → All P (insert k ks) → P k × All P ks
  All-insert k [] a = a
  All-insert k (j ∷ js) a = elim (Bool-cases (precedes k j)) [
    | inl before ↦ rw before at a
    | inr after ↦
        let (h, rest) = rw after at a in let (hk, hj) = All-insert k js rest in (hk, (h, hj))
  ]

  pub All-sort : (ks : List String) → All P (sort ks) → All P ks
  All-sort [] a = tt
  All-sort (k ∷ ks) a = let (h, rest) = All-insert k (sort ks) a in (h, All-sort ks rest)

  All-dedup_from : (k : String) (js : List String) → All P (dedup_from k js) → P k × All P js
  All-dedup_from k [] a = a
  All-dedup_from k (j ∷ js) a = elim (Bool-cases (string_eq k j)) [
    | inl same ↦
        let (h, rest) = All-dedup_from k js (rw same at a) in
        (h, (subst P ((string_eq_iff k j).0 same) h, rest))
    | inr other ↦ let (h, rest) = rw other at a in (h, All-dedup_from j js rest)
  ]

  pub All-dedup : (ks : List String) → All P (dedup ks) → All P ks
  All-dedup [] a = tt
  All-dedup (k ∷ ks) a = All-dedup_from k ks a

  pub All-front : (xs ys : List String) → All P (xs ++ ys) → All P xs
  All-front [] ys a = tt
  All-front (x ∷ xs) ys (h, a) = (h, All-front xs ys a)

  pub All-back : (xs ys : List String) → All P (xs ++ ys) → All P ys
  All-back [] ys a = a
  All-back (x ∷ xs) ys (h, a) = All-back xs ys a

  pub All-get :
      {N : Type 0} (ms : Members N) (k : String) (v : Value N)
      → All P (keys ms)
      → get ms k ≡ some v
      → P k
  All-get end k v a e = absurd (ground arith)
  All-get (member j u ms) k v (h, a) e = elim (Bool-cases (string_eq j k)) [
    | inl same ↦ subst P ((string_eq_iff j k).0 same) h
    | inr other ↦ All-get ms k v a (rw other at e)
  ]

pub followed-empty :
    (x y : Option (List String)) → followed x y ≡ some [] → (x ≡ some []) × (y ≡ some [])
followed-empty none y e = absurd (ground arith)
followed-empty (some xs) none e = absurd (ground arith)
followed-empty (some []) (some ys) e = (refl, e)
followed-empty (some (x ∷ xs)) (some ys) e = absurd (ground arith)
