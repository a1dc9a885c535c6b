-- ===== src/Model/Tests.antt =====
-- Differences of small reports (src/model.rs), with numbers printed as a fixed text.
use Prim.Native.String.{String}
use gpu_info_rs.Prelude.{ℕ, ◌≡◌, refl, ◌↔◌, Bool, some, List, [], ◌∷◌, arith, ◌==◌, if◌then◌else◌}
use gpu_info_rs.Model.{primary_summary, AdapterReport, vendor_name, sample_counts_from_flags}
use gpu_info_rs.Model.Json.{Value, number, array, object, done, item, end, member, depth}
use gpu_info_rs.Model.Diff.{diff_value}
use gpu_info_rs.Model.Same.{Same}
use gpu_info_rs.Model.Equality.{diff_value-Same}
use gpu_info_rs.Model.Returns.{diff_value_returns}

abbrev same : ℕ → ℕ → Bool
same a b = a == b

abbrev shown : Value ℕ → String
shown (number n) = if n == 7 then "7" else "8"
shown v = "value"

abbrev position : ℕ → String
position n = "0"

abbrev limits : ℕ → Value ℕ
limits n = object (member "max" (number n) (member "counts" (array (item (number 1) done)) end))

diff_value-Same_example :
    (diff_value same shown position 5 "" (limits 7) (limits 8) ≡ some [])
    ↔ Same same (limits 7) (limits 8)
unfolding depth
diff_value-Same_example =
    diff_value-Same same shown position 5 "" (limits 7) (limits 8) (omega arith)

diff_value_returns_example :
    (lines : List String) × (diff_value same shown position 5 "" (limits 7) (limits 8) ≡ some lines)
unfolding depth
diff_value_returns_example =
    diff_value_returns same shown position 5 "" (limits 7) (limits 8) (omega arith)

difference : diff_value same shown position 5 "" (limits 7) (limits 8) ≡ some ("max: 7 -> 8" ∷ [])
unfolding diff_value
difference = refl

intel : vendor_name 32902 ≡ some "Intel"
unfolding vendor_name
intel = refl

counts : sample_counts_from_flags (λ n. n == 4) ≡ 1 ∷ 4 ∷ []
unfolding sample_counts_from_flags
counts = refl

abbrev adapter : String → String → AdapterReport
adapter name kind = record { name = name; backend = "vulkan"; device_type = kind }

discrete :
    primary_summary (adapter "llvmpipe" "Cpu" ∷ adapter "card" "DiscreteGpu" ∷ [])
    ≡ ("card", "vulkan")
unfolding primary_summary
discrete = refl
