-- ===== src/Budget/Tests.antt =====
-- Budgets of a machine of 16 GiB with half of a share (src/budget.rs).
use gpu_info_rs.Prelude.{ℕ, ◌/◌, ◌≡◌, refl, ◌⊎◌, Bool, Option, none, some, ◌≡◌}
use gpu_info_rs.Os.{SysMemInfo}
use gpu_info_rs.Budget.{minimum, ram_budget_or, ram_budget, ram, ram_budget_from, VramPlan}
use gpu_info_rs.Budget.Bounds.{Reserved, ram_budget_or-Reserved}

abbrev half : ℕ → ℕ
half n = n / 2

abbrev shares : Bool → ℕ → ℕ
shares unified n = n / 2

abbrev machine : SysMemInfo
machine = record { total_bytes = 16000; available_bytes = 9000 }

ram_budget_or-Reserved_example :
    ◌≡◌ {A = Option ℕ} none (some 7000)
    ⊎ (◌≡◌ {A = Option ℕ} none none)
      × ((i : SysMemInfo) × (some machine ≡ some i) × Reserved minimum i 2000 7000)
unfolding ram_budget_or ram_budget ram ram_budget_from
ram_budget_or-Reserved_example =
    ram_budget_or-Reserved half (some machine) none minimum 2000 7000 refl

abbrev plan : VramPlan
plan = record { atlas = 399891136; decode = 67108864 }

abbrev tile : ℕ
tile = 1000000
