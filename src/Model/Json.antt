-- ===== src/Model/Json.antt =====
-- `serde_json::Value`, as far as src/model.rs reads it. An object's members have distinct keys; a
-- number is of a type of its own.
use Prim.Native.String.{String}
use gpu_info_rs.Prelude.{
  ℕ, suc, max, Bool, true, false, Option, none, some, List, [], ◌∷◌, if◌then◌else◌, string_eq,
}

mutual
  pub data Value (N : Type 0) : Type 0 where
    null : Value N
    bool : Bool → Value N
    number : N → Value N
    string : String → Value N
    array : Elements N → Value N
    object : Members N → Value N

  pub data Elements (N : Type 0) : Type 0 where
    done : Elements N
    item : Value N → Elements N → Elements N

  pub data Members (N : Type 0) : Type 0 where
    end : Members N
    member : String → Value N → Members N → Members N

abbrev pub bool_eq : Bool → Bool → Bool
bool_eq true b = b
bool_eq false true = false
bool_eq false false = true

module _ {N : Type 0} where
  -- `Map::keys` and `Map::get`.
  abbrev pub keys : Members N → List String
  keys end = []
  keys (member k v ms) = k ∷ keys ms

  abbrev pub get : Members N → String → Option (Value N)
  get end key = none
  get (member k v ms) key = let rest = get ms key in if string_eq k key then some v else rest

-- `==` of two values that are not both arrays nor both objects.
abbrev pub scalar_eq : {N : Type 0} → (N → N → Bool) → Value N → Value N → Bool
scalar_eq number_eq null null = true
scalar_eq number_eq (bool a) (bool b) = bool_eq a b
scalar_eq number_eq (number a) (number b) = number_eq a b
scalar_eq number_eq (string a) (string b) = string_eq a b
scalar_eq number_eq _ _ = false

unfoldable mutual
  -- How deep values are nested.
  pub depth : {N : Type 0} → Value N → ℕ
  depth (array es) = suc (depth_elements es)
  depth (object ms) = suc (depth_members ms)
  depth _ = 0

  pub depth_elements : {N : Type 0} → Elements N → ℕ
  depth_elements done = 0
  depth_elements (item v es) = max (depth v) (depth_elements es)

  pub depth_members : {N : Type 0} → Members N → ℕ
  depth_members end = 0
  depth_members (member k v ms) = max (depth v) (depth_members ms)
