-- ===== src/Os.antt =====
-- Memory of GPUs and of the system (src/os.rs, src/win_mem.rs). Texts are code points; a file or a
-- command is its lines, if it could be read. `usize` and `u64` sums wrap.
pub mod Text
pub mod System
pub mod Macos
pub mod Largest
pub mod Tests
use gpu_info_rs.Prelude.{
  ℕ, Bool, true, false, Option, none, some, List, [], ◌∷◌, ltb, leb, if◌then◌else◌, map_option,
  and_some, saturating_sub,
}
use gpu_info_rs.Stats.Floats.{Float}
use gpu_info_rs.Stats.Names.{Name}
use gpu_info_rs.Stats.{GpuStats}
use gpu_info_rs.Stats.Windows.{AdapterMemory}

pub record GpuMemInfo : Type 0 where
  pub name : Name
  pub dedicated_vram : ℕ
  pub free_vram : ℕ
  pub shared_memory : ℕ
  pub unified : Bool

pub record SysMemInfo : Type 0 where
  pub total_bytes : ℕ
  pub available_bytes : ℕ

abbrev pub or_zero : Option ℕ → ℕ
or_zero none = 0
or_zero (some n) = n

abbrev or_name : Option Name → Name → Name
or_name none instead = instead
or_name (some n) instead = n

-- "GPU".
abbrev pub gpu_name : Name
gpu_name = 71 ∷ 80 ∷ 85 ∷ []

abbrev pub and_more : Option GpuMemInfo → List GpuMemInfo → List GpuMemInfo
and_more none rest = rest
and_more (some g) rest = g ∷ rest

abbrev pub or_query : List GpuMemInfo → Option GpuMemInfo → List GpuMemInfo
or_query [] none = []
or_query [] (some g) = g ∷ []
or_query (g ∷ gs) q = g ∷ gs

-- `max_by_key`: the last of the largest.
abbrev pub largest_from : GpuMemInfo → List GpuMemInfo → GpuMemInfo
largest_from best [] = best
largest_from best (g ∷ gs) =
    let next = if leb best.dedicated_vram g.dedicated_vram then g else best in largest_from next gs

abbrev pub largest : List GpuMemInfo → Option GpuMemInfo
largest [] = none
largest (g ∷ gs) = some (largest_from g gs)

module _ (fl : Float) where
  abbrev pub sized_info : GpuStats fl → ℕ → Option GpuMemInfo
  sized_info st total =
      if ltb 0 total
      then some (record {
        name = or_name st.name gpu_name;
        dedicated_vram = total;
        free_vram = saturating_sub total (or_zero st.mem_used_bytes);
        shared_memory = or_zero st.mem_shared_bytes;
        unified = st.unified;
      })
      else none

  -- The readings with a total, as memory figures.
  unfoldable pub usable : List (GpuStats fl) → List GpuMemInfo
  usable [] = []
  usable (st ∷ rest) = and_more (and_some st.mem_total_bytes (sized_info st)) (usable rest)

  -- `query_all`, with what `query` gives.
  unfoldable pub query_all : List (GpuStats fl) → Option GpuMemInfo → List GpuMemInfo
  query_all stats query = or_query (usable stats) query

  unfoldable pub linux_query : List (GpuStats fl) → Option GpuMemInfo
  linux_query stats = largest (usable stats)

abbrev pub windows_memory : AdapterMemory → Option GpuMemInfo
windows_memory a =
    if ltb 0 a.total
    then some (record {
      name = a.name;
      dedicated_vram = a.total;
      free_vram = saturating_sub a.total a.used;
      shared_memory = a.shared;
      unified = a.unified;
    })
    else none

unfoldable pub windows_query : Option AdapterMemory → Option GpuMemInfo
windows_query a = and_some a windows_memory

-- `query().map_or(0, ..)`.
unfoldable pub dedicated_vram : Option GpuMemInfo → ℕ
dedicated_vram q = or_zero (map_option (λ g. GpuMemInfo.dedicated_vram g) q)

unfoldable pub free_vram : Option GpuMemInfo → ℕ
free_vram q = or_zero (map_option (λ g. GpuMemInfo.free_vram g) q)

unfoldable pub available_ram : Option SysMemInfo → ℕ
available_ram m = or_zero (map_option (λ i. SysMemInfo.available_bytes i) m)
