-- ===== src/Model/Returns.antt =====
-- `diff_value` (src/model.rs) comes to an end, and a report does not differ from itself.
use Prim.Native.String.{String}
use gpu_info_rs.Prelude.{
  ℕ, zero, suc, ◌<◌, ◌≡◌, refl, Bool, true, Option, none, some, List, [], ◌∷◌, ◌++◌, arith,
}
use gpu_info_rs.Model.Json.{
  Value, Elements, Members, array, object, done, item, get, bool_eq, depth, depth_elements,
  depth_members,
}
use gpu_info_rs.Model.Diff.{
  followed, child_of, diff_found, diff_keys, diff_items, diff_value, indexed,
}
use gpu_info_rs.Model.Equality.{get-depth}

abbrev Ends : Option (List String) → Type 0
Ends o = (lines : List String) × (o ≡ some lines)

followed-Ends : (x y : Option (List String)) → Ends x → Ends y → Ends (followed x y)
followed-Ends x y (xs, e) (ys, e') = (xs ++ ys, rw (e, e') refl)

module _ {N : Type 0} (number_eq : N → N → Bool) (show : Value N → String)
    (show_index : ℕ → String) where
  abbrev Returns : ℕ → (String → Value N → Value N → Option (List String)) → Type 0
  Returns n inner = (path : String) (a b : Value N) → depth a < n → Ends (inner path a b)

  diff_found-Ends :
      (n : ℕ) (inner : String → Value N → Value N → Option (List String)) (child : String)
      (x y : Option (Value N))
      → Returns n inner
      → ((a : Value N) → x ≡ some a → depth a < n)
      → Ends (diff_found number_eq show show_index inner child x y)
  diff_found-Ends n inner child none none f h = (_, refl)
  diff_found-Ends n inner child none (some b) f h = (_, refl)
  diff_found-Ends n inner child (some a) none f h = (_, refl)
  diff_found-Ends n inner child (some a) (some b) f h = f child a b (h a refl)

  diff_items-Ends :
      (n : ℕ) (inner : String → Value N → Value N → Option (List String)) (path : String) (i : ℕ)
      (aa ab : Elements N)
      → Returns n inner
      → depth_elements aa < n
      → Ends (diff_items number_eq show show_index inner path i aa ab)
  unfolding depth
  diff_items-Ends n inner path i done done f h = ([], refl)
  diff_items-Ends n inner path i done (item b ab) f h =
      followed-Ends
        (diff_found number_eq show show_index inner (indexed number_eq show show_index path i) none
          (some b))
        _ (diff_found-Ends n inner _ none (some b) f (λ a e. absurd (ground arith)))
        (diff_items-Ends n inner path (suc i) done ab f h)
  diff_items-Ends n inner path i (item a aa) done f h =
      followed-Ends
        (diff_found number_eq show show_index inner (indexed number_eq show show_index path i)
          (some a) none)
        _ (diff_found-Ends n inner _ (some a) none f (λ c e. ground arith))
        (diff_items-Ends n inner path (suc i) aa done f (ground arith))
  diff_items-Ends n inner path i (item a aa) (item b ab) f h =
      followed-Ends
        (diff_found number_eq show show_index inner (indexed number_eq show show_index path i)
          (some a) (some b))
        _ (f _ a b (ground arith)) (diff_items-Ends n inner path (suc i) aa ab f (ground arith))

  diff_keys-Ends :
      (n : ℕ) (inner : String → Value N → Value N → Option (List String)) (path : String)
      (ma mb : Members N) (ks : List String)
      → Returns n inner
      → depth_members ma < n
      → Ends (diff_keys number_eq show show_index inner path ma mb ks)
  diff_keys-Ends n inner path ma mb [] f h = ([], refl)
  diff_keys-Ends n inner path ma mb (k ∷ ks) f h =
      followed-Ends
        (diff_found number_eq show show_index inner (child_of path k) (get ma k) (get mb k)) _
        (diff_found-Ends n inner (child_of path k) (get ma k) (get mb k) f
          (λ a e. omega (arith, get-depth ma k a e)))
        (diff_keys-Ends n inner path ma mb ks f h)

  -- The comparison of two values ends where the fuel is more than the first value's nesting.
  pub diff_value_returns :
      (n : ℕ) (path : String) (a b : Value N)
      → depth a < n
      → (lines : List String) × (diff_value number_eq show show_index n path a b ≡ some lines)
  unfolding diff_value depth
  diff_value_returns zero path a b h = absurd (omega arith)
  diff_value_returns (suc n) path (object ma) (object mb) h =
      diff_keys-Ends n (diff_value number_eq show show_index n) path ma mb _ (diff_value_returns n)
        (omega arith)
  diff_value_returns (suc n) path (array aa) (array ab) h =
      diff_items-Ends n (diff_value number_eq show show_index n) path 0 aa ab (diff_value_returns n)
        (omega arith)
  diff_value_returns (suc n) path (object ma) _ h = (_, refl)
  diff_value_returns (suc n) path (array aa) _ h = (_, refl)
  diff_value_returns (suc n) path _ _ h = (_, refl)

bool_eq_refl : (b : Bool) → bool_eq b b ≡ true
bool_eq_refl b = ground arith
