-- ===== src/Os/Text.antt =====
-- What src/os.rs uses of the standard library's texts, on code points.
use gpu_info_rs.Prelude.{
  ℕ, ◌-◌, Bool, true, false, not, ◌&&◌, Option, none, some, List, [], ◌∷◌, map, leb, ◌==◌,
  if◌then◌else◌, and_some, checked_add, checked_mul,
}
use gpu_info_rs.Stats.Names.{Name, name_eq, is_whitespace, strip_prefix}

abbrev pub equal : Name → Name → Bool
equal = name_eq

abbrev pub is_digit : ℕ → Bool
is_digit c = leb 48 c && leb c 57

abbrev pub other_than_digit : ℕ → Bool
other_than_digit c = not (is_digit c)

abbrev digits : ℕ → Name → Option ℕ
digits value [] = some value
digits value (c ∷ cs) =
    if is_digit c
    then and_some (and_some (checked_mul value 10) (λ n. checked_add n (c - 48))) (λ n. digits n cs)
    else none

abbrev unsigned : Name → Option ℕ
unsigned [] = none
unsigned (c ∷ cs) = digits 0 (c ∷ cs)

-- `str::parse::<u64>`: a plus sign may stand first.
unfoldable pub parse_u64 : Name → Option ℕ
parse_u64 [] = none
parse_u64 (c ∷ cs) = if c == 43 then unsigned cs else unsigned (c ∷ cs)

abbrev nothing : Name → Bool
nothing [] = true
nothing (c ∷ cs) = false

-- `trim_end_matches` with a test of characters.
abbrev pub trim_end_by : (ℕ → Bool) → Name → Name
trim_end_by f [] = []
trim_end_by f (c ∷ cs) = let rest = trim_end_by f cs in if f c && nothing rest then [] else c ∷ rest

-- The suffix goes as often as it stands there: from the end on, what is left of a text with the
-- suffix alone before what already went.
abbrev pub trim_end_matches : Name → Name → Name
trim_end_matches suffix [] = []
trim_end_matches suffix (c ∷ cs) =
    let rest = trim_end_matches suffix cs in if name_eq (c ∷ rest) suffix then [] else c ∷ rest

abbrev or_best : Option Name → Name → Name
or_best none best = best
or_best (some rest) best = rest

abbrev later : Name → Name → Name → Name
later p best [] = best
later p best (c ∷ cs) = later p (or_best (strip_prefix p (c ∷ cs)) best) cs

-- `rsplit(p).next()`: what follows the last occurrence, or all of it.
abbrev pub after_last : Name → Name → Name
after_last p s = later p s s

abbrev lower_case : ℕ → Bool
lower_case c = leb 97 c && leb c 122

-- `to_uppercase` of ASCII letters.
abbrev pub to_ascii_uppercase : Name → Name
to_ascii_uppercase = map (λ c. if lower_case c then c - 32 else c)

abbrev with_word : Name → List Name → List Name
with_word [] words = words
with_word (c ∷ cs) words = (c ∷ cs) ∷ words

-- The first word, which may be empty, and the others.
abbrev words_of : Name → Name × List Name
words_of [] = ([], [])
words_of (c ∷ cs) =
    let (word, words) = words_of cs in
    if is_whitespace c then ([], with_word word words) else (c ∷ word, words)

abbrev pub split_whitespace : Name → List Name
split_whitespace s = let (word, words) = words_of s in with_word word words
