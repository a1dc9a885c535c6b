-- ===== src/Stats/Names.antt =====
-- Names of adapters as code points, and how src/stats/nvml.rs compares them.
use gpu_info_rs.Prelude.{
  ℕ, zero, suc, ◌+◌, Bool, true, false, ◌&&◌, ◌||◌, Option, none, some, List, [], ◌∷◌, map, leb,
  ◌==◌, if◌then◌else◌, length,
}

abbrev pub Name : Type 0
Name = List ℕ

abbrev pub name_eq : Name → Name → Bool
name_eq [] [] = true
name_eq [] (b ∷ bs) = false
name_eq (a ∷ rest) [] = false
name_eq (a ∷ rest) (b ∷ bs) = (a == b) && name_eq rest bs

-- `to_ascii_lowercase`.
abbrev pub lower : ℕ → ℕ
lower c = if leb 65 c && leb c 90 then c + 32 else c

abbrev pub to_ascii_lowercase : Name → Name
to_ascii_lowercase = map lower

-- `char::is_whitespace`.
abbrev pub is_whitespace : ℕ → Bool
is_whitespace c =
    leb 9 c && leb c 13
    || c == 32
    || c == 133
    || c == 160
    || c == 5760
    || leb 8192 c && leb c 8202
    || c == 8232
    || c == 8233
    || c == 8239
    || c == 8287
    || c == 12288

abbrev pub trim_start : Name → Name
trim_start [] = []
trim_start (c ∷ cs) = let rest = trim_start cs in if is_whitespace c then rest else c ∷ cs

abbrev nothing_left : Name → Bool
nothing_left [] = true
nothing_left (c ∷ cs) = false

abbrev pub trim_end : Name → Name
trim_end [] = []
trim_end (c ∷ cs) =
    let rest = trim_end cs in if is_whitespace c && nothing_left rest then [] else c ∷ rest

abbrev pub trim : Name → Name
trim cs = trim_end (trim_start cs)

abbrev pub strip_prefix : Name → Name → Option Name
strip_prefix [] s = some s
strip_prefix (p ∷ ps) [] = none
strip_prefix (p ∷ ps) (c ∷ cs) = let rest = strip_prefix ps cs in if p == c then rest else none

abbrev strip_more : Option Name → Name → (Name → Name) → Name
strip_more none s next = s
strip_more (some rest) s next = next rest

-- `trim_start_matches`: the prefix goes as often as it stands there. Each time the text is shorter.
abbrev pub trim_start_matches : ℕ → Name → Name → Name
trim_start_matches zero p s = s
trim_start_matches (suc n) p s = strip_more (strip_prefix p s) s (trim_start_matches n p)

-- "nvidia".
abbrev pub vendor_prefix : Name
vendor_prefix = 110 ∷ 118 ∷ 105 ∷ 100 ∷ 105 ∷ 97 ∷ []

-- `normalise`.
unfoldable pub normalise : Name → Name
normalise name = trim (trim_start_matches (length name) vendor_prefix (to_ascii_lowercase name))

-- Bytes up to the first NUL.
abbrev pub before_nul : Name → Name
before_nul [] = []
before_nul (b ∷ bs) = let rest = before_nul bs in if b == 0 then [] else b ∷ rest

-- `c_str` of ASCII bytes.
unfoldable pub c_str : Name → Name
c_str buf = trim (before_nul buf)
