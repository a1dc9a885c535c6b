-- ===== src/Stats/Windows.antt =====
-- GPU counters of Windows (src/stats/windows.rs): the adapters of DXGI and the counters of PDH, whose
-- answers are arguments. A name's tests for the adapter and the engine are functions of the name.
use Prim.Native.String.{String}
use gpu_info_rs.Prelude.{
  ℕ, Bool, true, false, not, ◌&&◌, ◌||◌, Option, none, some, List, [], ◌∷◌, ltb, leb, ◌==◌,
  if◌then◌else◌, and_some, string_eq,
}
use gpu_info_rs.Stats.Floats.{Float}
use gpu_info_rs.Stats.Names.{Name, trim, before_nul}
use gpu_info_rs.Stats.{GpuStats, default_stats, is_empty}
use gpu_info_rs.Vram.{Luid}

-- One adapter of the enumeration: its description, unless the call fails.
pub record AdapterDesc : Type 0 where
  pub software : Bool
  pub dedicated : ℕ
  pub shared : ℕ
  pub description : List ℕ
  pub luid : Luid

pub record Adapter : Type 0 where
  pub name : Name
  pub total_bytes : ℕ
  pub shared_bytes : ℕ
  pub unified : Bool
  pub luid : Luid

-- `describe`, for code units that are code points.
unfoldable pub describe : List ℕ → Name
describe raw = trim (before_nul raw)

-- Dedicated memory, or what an adapter without it may address of the system's.
abbrev pub total_of : AdapterDesc → ℕ
total_of d = if d.dedicated == 0 then d.shared else d.dedicated

abbrev pub adapter_of : AdapterDesc → Adapter
adapter_of d = record {
  name = describe d.description;
  total_bytes = total_of d;
  shared_bytes = d.shared;
  unified = d.dedicated == 0;
  luid = d.luid;
}

abbrev pub keep_adapter : Option AdapterDesc → List Adapter → List Adapter
keep_adapter none rest = rest
keep_adapter (some d) rest = if d.software || total_of d == 0 then rest else adapter_of d ∷ rest

-- The loop of the enumeration.
unfoldable pub enumerate : List (Option AdapterDesc) → List Adapter
enumerate [] = []
enumerate (d ∷ ds) = keep_adapter d (enumerate ds)

abbrev pub any_discrete : List Adapter → Bool
any_discrete [] = false
any_discrete (a ∷ rest) = not a.unified || any_discrete rest

-- `list.retain(|a| !a.unified)`.
abbrev pub discrete_only : List Adapter → List Adapter
discrete_only [] = []
discrete_only (a ∷ rest) = let left = discrete_only rest in if a.unified then left else a ∷ left

-- `sort_by_key(|a| Reverse(a.total_bytes))`, which keeps the order of equals.
abbrev pub insert : Adapter → List Adapter → List Adapter
insert a [] = a ∷ []
insert a (b ∷ bs) =
    let rest = insert a bs in if leb b.total_bytes a.total_bytes then a ∷ b ∷ bs else b ∷ rest

abbrev pub sort : List Adapter → List Adapter
sort [] = []
sort (a ∷ rest) = insert a (sort rest)

-- `Adapter::open_all`; no factory is an empty enumeration.
unfoldable pub open_all : List (Option AdapterDesc) → List Adapter
open_all ds =
    let list = enumerate ds in sort (if any_discrete list then discrete_only list else list)

-- `cached_adapters`: what the thread has cached, and what an enumeration gives now.
unfoldable pub cached_adapters :
    List Adapter → Option (List Adapter) → List Adapter × Option (List Adapter)
cached_adapters now (some list) = (list, some list)
cached_adapters [] none = ([], none)
cached_adapters (a ∷ rest) none = (a ∷ rest, some (a ∷ rest))

abbrev pub known_engines : List String
known_engines =
    "3D" ∷ "Copy" ∷ "Compute" ∷ "VideoDecode" ∷ "VideoEncode" ∷ "VideoProcessing" ∷ "Security"
    ∷ "Graphics_1" ∷ []

abbrev find_engine : String → List String → String
find_engine name [] = "other"
find_engine name (k ∷ ks) = let later = find_engine name ks in if string_eq k name then k else later

unfoldable pub engine_type : String → String
engine_type name = find_engine name known_engines

-- Name, total, shared, used and unified of the first adapter.
pub record AdapterMemory : Type 0 where
  pub name : Name
  pub total : ℕ
  pub shared : ℕ
  pub used : ℕ
  pub unified : Bool

abbrev used_or_zero : Option ℕ → ℕ
used_or_zero none = 0
used_or_zero (some n) = n

module _ (fl : Float) where
  -- One instance of a counter array: whether its name was text that carries the adapter's tag, what
  -- follows "engtype_" in the name, and the value.
  pub record Instance : Type 0 where
    pub tagged : Luid → Bool
    pub engine : Option String
    pub value : fl.Double

  -- What a counter array shows when it is formatted: its instances, unless the call fails.
  abbrev pub Formatted : Type 0
  Formatted = Option (List Instance)

  -- The instances that `for_each` hands on.
  abbrev pub visited : Luid → List Instance → List Instance
  visited luid [] = []
  visited luid (i ∷ is) =
      let rest = visited luid is in if i.tagged luid && fl.is_finite i.value then i ∷ rest else rest

  unfoldable pub for_each : Luid → Formatted → Option (List Instance)
  for_each luid none = none
  for_each luid (some is) = some (visited luid is)

  -- `totals`, after one more value of an engine type.
  abbrev pub add_total : String → fl.Double → List (String × fl.Double) → List (String × fl.Double)
  add_total engine value [] = (engine, value) ∷ []
  add_total engine value ((t, sum) ∷ rest) =
      let later = add_total engine value rest in
      if string_eq t engine then (t, fl.plus sum value) ∷ rest else (t, sum) ∷ later

  abbrev pub visit_engine :
      Option String → fl.Double → List (String × fl.Double) → List (String × fl.Double)
  visit_engine none value totals = totals
  visit_engine (some engine) value totals = add_total (engine_type engine) value totals

  unfoldable pub engine_totals :
      List Instance → List (String × fl.Double) → List (String × fl.Double)
  engine_totals [] totals = totals
  engine_totals (i ∷ is) totals = engine_totals is (visit_engine i.engine i.value totals)

  abbrev pub busiest_of : fl.Double → List (String × fl.Double) → fl.Double
  busiest_of best [] = best
  busiest_of best ((t, sum) ∷ rest) = busiest_of (fl.maximum best sum) rest

  -- `busiest_engine`.
  unfoldable pub busiest_engine : Luid → Formatted → Option fl.F
  busiest_engine luid f =
      and_some (for_each luid f)
        (λ is. some (fl.to_percent (busiest_of fl.zero_double (engine_totals is []))))

  abbrev pub sum_values : fl.Double → List Instance → fl.Double
  sum_values total [] = total
  sum_values total (i ∷ is) = sum_values (fl.plus total i.value) is

  -- `memory_used`.
  unfoldable pub memory_used : Luid → Formatted → Option ℕ
  memory_used luid f =
      and_some (for_each luid f)
        (λ is. some (fl.to_bytes (fl.maximum (sum_values fl.zero_double is) fl.zero_double)))

  pub record Sample : Type 0 where
    pub util_pct : Option fl.F
    pub used : Option ℕ
    pub spilled : Option ℕ

  abbrev pub default_sample : Sample
  default_sample = record { util_pct = none; used = none; spilled = none }

  -- The three counter arrays of one collection.
  pub record Collected : Type 0 where
    pub util : Formatted
    pub dedicated : Formatted
    pub shared : Formatted

  unfoldable pub sample_collected : Luid → Bool → Collected → Sample
  sample_collected luid true c = record {
    util_pct = busiest_engine luid c.util;
    used = memory_used luid c.shared;
    spilled = none;
  }
  sample_collected luid false c = record {
    util_pct = busiest_engine luid c.util;
    used = memory_used luid c.dedicated;
    spilled = memory_used luid c.shared;
  }

  -- The samples of `query_all`; `none` where PDH could not be opened or collected.
  abbrev pub sample_of : Option Collected → Adapter → Sample
  sample_of none a = default_sample
  sample_of (some c) a = sample_collected a.luid a.unified c

  abbrev pub stats_of : Adapter → Sample → GpuStats fl
  stats_of a s = record (default_stats fl) {
    name = some a.name;
    util_pct = s.util_pct;
    mem_used_bytes = s.used;
    mem_shared_bytes = s.spilled;
    mem_total_bytes = if ltb 0 a.total_bytes then some a.total_bytes else none;
    unified = a.unified;
  }

  -- `query_all`: readings without a counter are left out.
  unfoldable pub query_all : List Adapter → Option Collected → List (GpuStats fl)
  query_all [] c = []
  query_all (a ∷ rest) c =
      let later = query_all rest c in
      let s = stats_of a (sample_of c a) in if is_empty fl s then later else s ∷ later

  unfoldable pub adapter_memory : List Adapter → Option Collected → Option AdapterMemory
  adapter_memory [] c = none
  adapter_memory (a ∷ rest) c = some (record {
    name = a.name;
    total = a.total_bytes;
    shared = a.shared_bytes;
    used = used_or_zero ((sample_of c a).used);
    unified = a.unified;
  })

-- What `PdhGetFormattedCounterArrayW` answers: the number of items, a size that is needed, or failure.
pub data PdhStatus : Type 0 where
  pdh_ok : ℕ → PdhStatus
  more_data : ℕ → PdhStatus
  failed : PdhStatus

abbrev items_of : ℕ → Option ℕ
items_of count = if ltb 0 count then some count else none

abbrev last_attempt : ℕ → PdhStatus → Option ℕ × ℕ
last_attempt buffer (pdh_ok count) = (items_of count, buffer)
last_attempt buffer (more_data size) = (none, buffer)
last_attempt buffer failed = (none, buffer)

abbrev first_attempt : ℕ → (ℕ → PdhStatus) → PdhStatus → Option ℕ × ℕ
first_attempt buffer answer (pdh_ok count) = (items_of count, buffer)
first_attempt buffer answer (more_data size) = last_attempt size (answer size)
first_attempt buffer answer failed = (none, buffer)

-- `Counters::format_array`: the scratch buffer's length, and what PDH answers for a buffer of a length. It
-- gives the number of items and the buffer's length afterwards.
unfoldable pub format_array : ℕ → (ℕ → PdhStatus) → Option ℕ × ℕ
format_array buffer answer = first_attempt buffer answer (answer buffer)
