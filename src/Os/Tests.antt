-- ===== src/Os/Tests.antt =====
-- Runs of src/os.rs.
use gpu_info_rs.Prelude.{◌≡◌, refl, some, [], ◌∷◌, ◌++◌}
use gpu_info_rs.Os.System.{sys_mem_linux, meminfo, parse_meminfo_kb, mem_total}
use gpu_info_rs.Os.Macos.{parse_size_string}
use gpu_info_rs.Os.Text.{parse_u64}

-- "MemTotal:  16 kB".
kilobytes :
    sys_mem_linux (some ((mem_total ++ 32 ∷ 32 ∷ 49 ∷ 54 ∷ 32 ∷ 107 ∷ 66 ∷ []) ∷ []))
    ≡ some (record { total_bytes = 16384; available_bytes = 0 })
unfolding sys_mem_linux meminfo parse_meminfo_kb parse_u64
kilobytes = refl

-- "8 gb".
gigabytes : parse_size_string (56 ∷ 32 ∷ 103 ∷ 98 ∷ []) ≡ some 8589934592
unfolding parse_size_string parse_u64
gigabytes = refl
