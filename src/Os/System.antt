-- ===== src/Os/System.antt =====
-- The system's memory on Linux, Windows and macOS (src/os.rs, src/win_mem.rs).
use gpu_info_rs.Prelude.{
  ℕ, Option, none, some, List, [], ◌∷◌, ◌==◌, if◌then◌else◌, map_option, mul64,
}
use gpu_info_rs.Stats.Names.{Name, trim, strip_prefix}
use gpu_info_rs.Os.{SysMemInfo, or_zero}
use gpu_info_rs.Os.Text.{parse_u64, trim_end_matches}

-- "kB", "MemTotal:", "MemAvailable:".
abbrev kilobytes : Name
kilobytes = 107 ∷ 66 ∷ []

abbrev pub mem_total : Name
mem_total = 77 ∷ 101 ∷ 109 ∷ 84 ∷ 111 ∷ 116 ∷ 97 ∷ 108 ∷ 58 ∷ []

abbrev pub mem_available : Name
mem_available = 77 ∷ 101 ∷ 109 ∷ 65 ∷ 118 ∷ 97 ∷ 105 ∷ 108 ∷ 97 ∷ 98 ∷ 108 ∷ 101 ∷ 58 ∷ []

unfoldable pub parse_meminfo_kb : Name → ℕ
parse_meminfo_kb s = or_zero (parse_u64 (trim (trim_end_matches kilobytes (trim s))))

-- One line of the file: the total and the available kilobytes after it.
abbrev pub meminfo_line : Name → ℕ × ℕ → ℕ × ℕ
meminfo_line line (total, available) = elim (strip_prefix mem_total line) [
  | some rest ↦ (parse_meminfo_kb rest, available)
  | none ↦ elim (strip_prefix mem_available line) [
    | some rest ↦ (total, parse_meminfo_kb rest)
    | none ↦ (total, available)
  ]
]

unfoldable pub meminfo : List Name → ℕ × ℕ → ℕ × ℕ
meminfo [] figures = figures
meminfo (line ∷ lines) figures = meminfo lines (meminfo_line line figures)

abbrev linux_figures : ℕ × ℕ → Option SysMemInfo
linux_figures (total, available) =
    if total == 0
    then none
    else some (record { total_bytes = mul64 total 1024; available_bytes = mul64 available 1024 })

-- `sys_mem_platform` of Linux.
unfoldable pub sys_mem_linux : Option (List Name) → Option SysMemInfo
sys_mem_linux none = none
sys_mem_linux (some lines) = linux_figures (meminfo lines (0, 0))

-- `sys_mem` of Windows: the two figures of the system's answer.
unfoldable pub sys_mem_windows : Option (ℕ × ℕ) → Option SysMemInfo
sys_mem_windows none = none
sys_mem_windows (some (total, available)) =
    some (record { total_bytes = total; available_bytes = available })

-- `sys_mem_platform` of macOS.
unfoldable pub sys_mem_macos : Option ℕ → Option ℕ → Option SysMemInfo
sys_mem_macos memsize vm_stat_free =
    map_option (λ total. record { total_bytes = total; available_bytes = or_zero vm_stat_free })
      memsize
