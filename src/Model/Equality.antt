-- ===== src/Model/Equality.antt =====
-- `diff_value` (src/model.rs) finds no line exactly where two values are the same.
use Prim.Native.String.{String}
use gpu_info_rs.Prelude.{
  ℕ, zero, suc, ◌≤◌, ◌<◌, ◌≡◌, refl, ◌⊎◌, inl, inr, ◌↔◌, Bool, true, Option, none, some, List, [],
  ◌∷◌, ◌++◌, arith, All, string_eq, Bool-cases, Option-cases,
}
use gpu_info_rs.Model.Json.{
  Value, Elements, Members, null, bool, number, string, array, object, done, item, end, member,
  keys, get, scalar_eq, depth, depth_elements, depth_members,
}
use gpu_info_rs.Model.Diff.{
  sort, dedup, child_of, diff_found, diff_keys, diff_items, changed, diff_value, indexed,
}
use gpu_info_rs.Model.Same.{
  Same, scalars, arrays, objects, SameElements, both_done, both_item, SameFound, neither, both,
  All-sort, All-dedup, All-front, All-back, All-get, followed-empty,
}

pub get-depth :
    {N : Type 0} (ms : Members N) (k : String) (v : Value N)
    → get ms k ≡ some v
    → depth v ≤ depth_members ms
unfolding depth
get-depth end k v e = absurd (ground arith)
get-depth (member j u ms) k v e = elim (Bool-cases (string_eq j k)) [
  | inl same ↦ let found = rw same at e in ground arith
  | inr other ↦ omega (arith, get-depth ms k v (rw other at e))
]

module _ {N : Type 0} (number_eq : N → N → Bool) (show : Value N → String)
    (show_index : ℕ → String) where
  -- Both are objects, both are arrays, or the values themselves are compared.
  abbrev Shape : Value N → Value N → Type 0
  Shape a b =
      ((ma : Members N) × (mb : Members N) × (a ≡ object ma) × (b ≡ object mb))
      ⊎ ((aa : Elements N) × (ab : Elements N) × (a ≡ array aa) × (b ≡ array ab))
      ⊎ ((n : ℕ) (path : String)
          → diff_value number_eq show show_index (suc n) path a b
            ≡ some (changed number_eq show show_index path a b))

  shape : (a b : Value N) → Shape a b
  unfolding diff_value
  shape (object ma) (object mb) = inl (ma, mb, refl, refl)
  shape (array aa) (array ab) = inr (inl (aa, ab, refl, refl))
  shape (object ma) _ = inr (inr (λ n path. refl))
  shape (array aa) _ = inr (inr (λ n path. refl))
  shape null _ = inr (inr (λ n path. refl))
  shape (bool x) _ = inr (inr (λ n path. refl))
  shape (number x) _ = inr (inr (λ n path. refl))
  shape (string x) _ = inr (inr (λ n path. refl))

  changed-empty :
      (path : String) (a b : Value N)
      → changed number_eq show show_index path a b ≡ []
      → scalar_eq number_eq a b ≡ true
  changed-empty path a b e = elim (Bool-cases (scalar_eq number_eq a b)) [
    | inl same ↦ same
    | inr other ↦ let lines = rw other at e in absurd (ground arith)
  ]

  -- What a call without lines says, once all its inner calls do.
  abbrev Finds : (String → Value N → Value N → Option (List String)) → Type 0
  Finds inner = (path : String) (a b : Value N) → inner path a b ≡ some [] → Same number_eq a b

  diff_found-Same :
      (inner : String → Value N → Value N → Option (List String)) (child : String)
      (x y : Option (Value N))
      → Finds inner
      → diff_found number_eq show show_index inner child x y ≡ some []
      → SameFound number_eq x y
  diff_found-Same inner child (some a) (some b) f e = both (f child a b e)
  diff_found-Same inner child (some a) none f e = absurd (ground arith)
  diff_found-Same inner child none (some b) f e = absurd (ground arith)
  diff_found-Same inner child none none f e = neither

  diff_items-Same :
      (inner : String → Value N → Value N → Option (List String)) (path : String) (i : ℕ)
      (aa ab : Elements N)
      → Finds inner
      → diff_items number_eq show show_index inner path i aa ab ≡ some []
      → SameElements number_eq aa ab
  diff_items-Same inner path i done done f e = both_done
  diff_items-Same inner path i (item a aa) done f e =
      let child = indexed number_eq show show_index path i in
      let (x, y) =
        followed-empty (diff_found number_eq show show_index inner child (some a) none)
          (diff_items number_eq show show_index inner path (suc i) aa done) e in
      absurd (ground arith)
  diff_items-Same inner path i done (item b ab) f e =
      let child = indexed number_eq show show_index path i in
      let (x, y) =
        followed-empty (diff_found number_eq show show_index inner child none (some b))
          (diff_items number_eq show show_index inner path (suc i) done ab) e in
      absurd (ground arith)
  diff_items-Same inner path i (item a aa) (item b ab) f e =
      let (x, y) = followed-empty _ _ e in
      both_item (f _ a b x) (diff_items-Same inner path (suc i) aa ab f y)

  diff_keys-All :
      (inner : String → Value N → Value N → Option (List String)) (path : String)
      (ma mb : Members N) (ks : List String)
      → Finds inner
      → diff_keys number_eq show show_index inner path ma mb ks ≡ some []
      → All (λ k. SameFound number_eq (get ma k) (get mb k)) ks
  diff_keys-All inner path ma mb [] f e = tt
  diff_keys-All inner path ma mb (k ∷ ks) f e =
      let (x, y) = followed-empty _ _ e in
      (
        diff_found-Same inner (child_of path k) (get ma k) (get mb k) f x,
        diff_keys-All inner path ma mb ks f y,
      )

  found_everywhere :
      (ma mb : Members N)
      → All (λ k. SameFound number_eq (get ma k) (get mb k)) (dedup (sort (keys ma ++ keys mb)))
      → (k : String) → SameFound number_eq (get ma k) (get mb k)
  found_everywhere ma mb all k =
      let P : String → Type 0 = λ k. SameFound number_eq (get ma k) (get mb k) in
      let listed = All-sort P (keys ma ++ keys mb) (All-dedup P (sort (keys ma ++ keys mb)) all) in
      elim (Option-cases (get ma k)) [
        | inr (a, e) ↦ All-get P ma k a (All-front P (keys ma) (keys mb) listed) e
        | inl e ↦ elim (Option-cases (get mb k)) [
          | inr (b, e') ↦ All-get P mb k b (All-back P (keys ma) (keys mb) listed) e'
          | inl e' ↦ rw (e, e') neither
        ]
      ]

  diff_value_sound : (n : ℕ) → Finds (diff_value number_eq show show_index n)
  unfolding diff_value
  diff_value_sound zero path a b e = absurd (ground arith)
  diff_value_sound (suc n) path a b e = elim (shape a b) [
    | inl (ma, mb, ea, eb) ↦
        rw (ea, eb)
          (objects (
            found_everywhere ma mb (
              diff_keys-All (diff_value number_eq show show_index n) path ma mb _
                (diff_value_sound n) (rw (ea, eb) at e))))
    | inr (inl (aa, ab, ea, eb)) ↦
        rw (ea, eb)
          (arrays (
            diff_items-Same (diff_value number_eq show show_index n) path 0 aa ab
              (diff_value_sound n) (rw (ea, eb) at e)))
    | inr (inr plain) ↦ scalars (changed-empty path a b (cc (plain n path, e)))
  ]

  -- The other way: a call finds nothing, once all its inner calls on values that are less deep do.
  abbrev Silent : ℕ → (String → Value N → Value N → Option (List String)) → Type 0
  Silent n inner =
      (path : String) (a b : Value N) → depth a < n → Same number_eq a b → inner path a b ≡ some []

  diff_items-Silent :
      (n : ℕ) (inner : String → Value N → Value N → Option (List String)) (path : String) (i : ℕ)
      (aa ab : Elements N)
      → Silent n inner
      → depth_elements aa < n
      → SameElements number_eq aa ab
      → diff_items number_eq show show_index inner path i aa ab ≡ some []
  unfolding depth
  diff_items-Silent n inner path i done done f h both_done = refl
  diff_items-Silent n inner path i done (item b ab) f h s = elim s [ ]
  diff_items-Silent n inner path i (item a aa) done f h s = elim s [ ]
  diff_items-Silent n inner path i (item a aa) (item b ab) f h (both_item s ss) =
      let x = f (indexed number_eq show show_index path i) a b (ground arith) s in
      let y = diff_items-Silent n inner path (suc i) aa ab f (ground arith) ss in rw (x, y) refl

  diff_found-Silent :
      (n : ℕ) (inner : String → Value N → Value N → Option (List String)) (child : String)
      (x y : Option (Value N))
      → Silent n inner
      → ((a : Value N) → x ≡ some a → depth a < n)
      → SameFound number_eq x y
      → diff_found number_eq show show_index inner child x y ≡ some []
  diff_found-Silent n inner child none none f h neither = refl
  diff_found-Silent n inner child none (some b) f h s = elim s [ ]
  diff_found-Silent n inner child (some a) none f h s = elim s [ ]
  diff_found-Silent n inner child (some a) (some b) f h (both s) = f child a b (h a refl) s

  diff_keys-Silent :
      (n : ℕ) (inner : String → Value N → Value N → Option (List String)) (path : String)
      (ma mb : Members N) (ks : List String)
      → Silent n inner
      → depth_members ma < n
      → ((k : String) → SameFound number_eq (get ma k) (get mb k))
      → diff_keys number_eq show show_index inner path ma mb ks ≡ some []
  diff_keys-Silent n inner path ma mb [] f h s = refl
  diff_keys-Silent n inner path ma mb (k ∷ ks) f h s =
      let x =
        diff_found-Silent n inner (child_of path k) (get ma k) (get mb k) f
          (λ a e. omega (arith, get-depth ma k a e)) (s k) in
      rw (x, diff_keys-Silent n inner path ma mb ks f h s) refl

  scalar_same :
      (n : ℕ) (path : String) (a b : Value N)
      → scalar_eq number_eq a b ≡ true
      → diff_value number_eq show show_index (suc n) path a b ≡ some []
  unfolding diff_value
  scalar_same n path a b e = elim (shape a b) [
    | inl (ma, mb, ea, eb) ↦ let e' = rw ea at e in absurd (ground arith)
    | inr (inl (aa, ab, ea, eb)) ↦ let e' = rw ea at e in absurd (ground arith)
    | inr (inr plain) ↦ rw (plain n path, e) refl
  ]

  diff_value_complete : (n : ℕ) → Silent n (diff_value number_eq show show_index n)
  unfolding diff_value depth
  diff_value_complete zero path a b h s = absurd (omega arith)
  diff_value_complete (suc n) path a b h (scalars e) = scalar_same n path a b e
  diff_value_complete (suc n) path (array aa) (array ab) h (arrays ss) =
      diff_items-Silent n (diff_value number_eq show show_index n) path 0 aa ab
        (diff_value_complete n) (omega arith) ss
  diff_value_complete (suc n) path (object ma) (object mb) h (objects s) =
      diff_keys-Silent n (diff_value number_eq show show_index n) path ma mb _
        (diff_value_complete n) (omega arith) s

  -- With fuel for the nesting of the first value, two values have no line of difference exactly
  -- when they are the same: equal scalars, arrays of the same elements, objects that have the
  -- same under every key.
  pub diff_value-Same :
      (n : ℕ) (path : String) (a b : Value N)
      → depth a < n
      → (diff_value number_eq show show_index n path a b ≡ some []) ↔ Same number_eq a b
  diff_value-Same n path a b h = (diff_value_sound n path a b, diff_value_complete n path a b h)
