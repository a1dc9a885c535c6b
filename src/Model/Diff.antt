-- ===== src/Model/Diff.antt =====
-- `diff_value` and `GpuReport::diff` (src/model.rs). How values and indices are printed, and how a
-- report is serialised, is not this crate's: functions stand for it.
use Prim.Native.String.{String, compare, ◌++◌ as concat}
use Prim.Native.Nat.{Ordering}
use gpu_info_rs.Prelude.{
  ℕ, zero, suc, Bool, true, false, Option, none, some, List, [], ◌∷◌, ◌++◌, if◌then◌else◌,
  string_eq,
}
use gpu_info_rs.Model.Json.{
  Value, Elements, Members, array, object, done, item, keys, get, scalar_eq,
}

-- `a ≤ b` in the order of texts.
abbrev pub precedes : String → String → Bool
precedes a b = elim (compare a b) [ Ordering.gt ↦ false | _ ↦ true ]

-- `keys.sort()` and `keys.dedup()`.
abbrev pub insert : String → List String → List String
insert k [] = k ∷ []
insert k (j ∷ js) = let rest = insert k js in if precedes k j then k ∷ j ∷ js else j ∷ rest

abbrev pub sort : List String → List String
sort [] = []
sort (k ∷ ks) = insert k (sort ks)

abbrev pub dedup_from : String → List String → List String
dedup_from k [] = k ∷ []
dedup_from k (j ∷ js) = if string_eq k j then dedup_from k js else k ∷ dedup_from j js

abbrev pub dedup : List String → List String
dedup [] = []
dedup (k ∷ ks) = dedup_from k ks

-- What is pushed to `out` by two steps, unless one runs out of fuel.
abbrev pub followed : Option (List String) → Option (List String) → Option (List String)
followed none later = none
followed (some lines) none = none
followed (some lines) (some rest) = some (lines ++ rest)

-- The end of a removed or an added line.
abbrev pub child_of : String → String → String
child_of path k = if string_eq path "" then k else concat path (concat "." k)

module _ {N : Type 0} (number_eq : N → N → Bool) (show : Value N → String)
    (show_index : ℕ → String) where
  -- One child: its paths, what both sides have there, and the recursive call.
  abbrev pub diff_found :
      (String → Value N → Value N → Option (List String))
      → String
      → Option (Value N)
      → Option (Value N)
      → Option (List String)
  diff_found inner child (some va) (some vb) = inner child va vb
  diff_found inner child (some va) none =
      some (concat child (concat ": " (concat (show va) " -> (removed)")) ∷ [])
  diff_found inner child none (some vb) =
      some (concat child (concat ": (added) -> " (show vb)) ∷ [])
  diff_found inner child none none = some []

  abbrev pub diff_keys :
      (String → Value N → Value N → Option (List String))
      → String
      → Members N
      → Members N
      → List String
      → Option (List String)
  diff_keys inner path ma mb [] = some []
  diff_keys inner path ma mb (k ∷ ks) =
      followed (diff_found inner (child_of path k) (get ma k) (get mb k))
        (diff_keys inner path ma mb ks)

  abbrev pub indexed : String → ℕ → String
  indexed path i = concat path (concat "[" (concat (show_index i) "]"))

  -- The loop over the indices of the longer array.
  abbrev pub diff_items :
      (String → Value N → Value N → Option (List String))
      → String
      → ℕ
      → Elements N
      → Elements N
      → Option (List String)
  diff_items inner path i done done = some []
  diff_items inner path i (item va ra) done =
      followed (diff_found inner (indexed path i) (some va) none)
        (diff_items inner path (suc i) ra done)
  diff_items inner path i done (item vb bs) =
      followed (diff_found inner (indexed path i) none (some vb))
        (diff_items inner path (suc i) done bs)
  diff_items inner path i (item va ra) (item vb bs) =
      followed (diff_found inner (indexed path i) (some va) (some vb))
        (diff_items inner path (suc i) ra bs)

  abbrev pub changed : String → Value N → Value N → List String
  changed path a b =
      if scalar_eq number_eq a b
      then []
      else concat path (concat ": " (concat (show a) (concat " -> " (show b)))) ∷ []

  -- The lines that a call pushes; the fuel bounds the nesting.
  unfoldable pub diff_value : ℕ → String → Value N → Value N → Option (List String)
  diff_value zero path a b = none
  diff_value (suc n) path (object ma) (object mb) =
      diff_keys (diff_value n) path ma mb (dedup (sort (keys ma ++ keys mb)))
  diff_value (suc n) path (array aa) (array ab) = diff_items (diff_value n) path 0 aa ab
  diff_value (suc n) path a b = some (changed path a b)
