-- ===== src/Os/Macos.antt =====
-- What src/os.rs reads from the commands of macOS.
use gpu_info_rs.Prelude.{
  ℕ, Option, none, some, List, [], ◌∷◌, ltb, ◌==◌, true, false, if◌then◌else◌, map_option, mul64,
  add64,
}
use gpu_info_rs.Stats.Names.{Name, trim, strip_prefix}
use gpu_info_rs.Os.{GpuMemInfo, or_zero}
use gpu_info_rs.Os.Text.{
  equal, parse_u64, trim_end_by, other_than_digit, after_last, split_whitespace, to_ascii_uppercase,
}

-- "Apple GPU".
abbrev apple_gpu : Name
apple_gpu = 65 ∷ 112 ∷ 112 ∷ 108 ∷ 101 ∷ 32 ∷ 71 ∷ 80 ∷ 85 ∷ []

abbrev unless_empty : Name → Name → Name
unless_empty [] instead = instead
unless_empty (c ∷ cs) instead = c ∷ cs

abbrev profile : Option (Name × ℕ) → Name × ℕ
profile none = ([], 0)
profile (some p) = p

abbrev apple : Name × ℕ → ℕ → ℕ → Option GpuMemInfo
apple (sp_name, sp_vram) total free =
    if ltb 0 sp_vram
    then some (record {
      name = sp_name;
      dedicated_vram = sp_vram;
      free_vram = 0;
      shared_memory = 0;
      unified = false;
    })
    else if ltb 0 total
    then some (record {
      name = unless_empty sp_name apple_gpu;
      dedicated_vram = total;
      free_vram = free;
      shared_memory = 0;
      unified = true;
    })
    else none

unfoldable pub macos_query : Option (Name × ℕ) → Option ℕ → Option ℕ → Option GpuMemInfo
macos_query system_profiler memsize vm_stat_free =
    apple (profile system_profiler) (or_zero memsize) (or_zero vm_stat_free)

-- The unit of a size: "TB", "GB", "MB", "KB", or bytes.
abbrev multiplier : Name → ℕ
multiplier unit =
    if equal unit (84 ∷ 66 ∷ [])
    then 1099511627776
    else if equal unit (71 ∷ 66 ∷ [])
    then 1073741824
    else if equal unit (77 ∷ 66 ∷ [])
    then 1048576
    else if equal unit (75 ∷ 66 ∷ [])
    then 1024
    else 1

abbrev size_of_parts : List Name → Option ℕ
size_of_parts [] = none
size_of_parts (value ∷ []) = parse_u64 value
size_of_parts (value ∷ unit ∷ rest) =
    map_option (λ n. mul64 n (multiplier (to_ascii_uppercase unit))) (parse_u64 value)

unfoldable pub parse_size_string : Name → Option ℕ
parse_size_string s = size_of_parts (split_whitespace s)

-- "Pages free:", "Pages inactive:", "Pages speculative:".
abbrev pages : Name → Name
pages kind = 80 ∷ 97 ∷ 103 ∷ 101 ∷ 115 ∷ 32 ∷ kind

abbrev free_key : Name
free_key = pages (102 ∷ 114 ∷ 101 ∷ 101 ∷ 58 ∷ [])

abbrev inactive_key : Name
inactive_key = pages (105 ∷ 110 ∷ 97 ∷ 99 ∷ 116 ∷ 105 ∷ 118 ∷ 101 ∷ 58 ∷ [])

abbrev speculative_key : Name
speculative_key = pages (115 ∷ 112 ∷ 101 ∷ 99 ∷ 117 ∷ 108 ∷ 97 ∷ 116 ∷ 105 ∷ 118 ∷ 101 ∷ 58 ∷ [])

-- The free, inactive and speculative pages.
pub record Pages : Type 0 where
  pub free : ℕ
  pub inactive : ℕ
  pub speculative : ℕ

abbrev figure : Name → ℕ
figure rest = or_zero (parse_u64 (trim rest))

abbrev pub pages_line : Name → Pages → Pages
pages_line line p =
    let trimmed = trim_end_by (λ c. c == 46) (trim line) in
    elim (strip_prefix free_key trimmed) [
      | some rest ↦ record p { free = figure rest }
      | none ↦ elim (strip_prefix inactive_key trimmed) [
        | some rest ↦ record p { inactive = figure rest }
        | none ↦ elim (strip_prefix speculative_key trimmed) [
          | some rest ↦ record p { speculative = figure rest }
          | none ↦ p
        ]
      ]
    ]

unfoldable pub count_pages : List Name → Pages → Pages
count_pages [] p = p
count_pages (line ∷ lines) p = count_pages lines (pages_line line p)

abbrev free_bytes : ℕ → Pages → ℕ
free_bytes page_size p = mul64 (add64 (add64 p.free p.inactive) p.speculative) page_size

-- "page size of ".
abbrev page_size_of : Name
page_size_of = 112 ∷ 97 ∷ 103 ∷ 101 ∷ 32 ∷ 115 ∷ 105 ∷ 122 ∷ 101 ∷ 32 ∷ 111 ∷ 102 ∷ 32 ∷ []

-- `macos_vm_stat_free`, from the lines of a command that succeeded.
unfoldable pub macos_vm_stat_free : List Name → Option ℕ
macos_vm_stat_free [] = none
macos_vm_stat_free (first ∷ lines) =
    map_option
      (λ page_size.
        free_bytes page_size
          (count_pages lines (record { free = 0; inactive = 0; speculative = 0 })))
      (parse_u64 (trim_end_by other_than_digit (after_last page_size_of first)))
