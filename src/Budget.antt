-- ===== src/Budget.antt =====
-- Memory budgets (src/budget.rs). The product of a byte count and a floating-point share, cast to `u64`,
-- is a function `share`: for RAM of the clamped fraction, for VRAM of each of the two shares. The
-- figures of the operating system and of the driver are arguments.
pub mod Bounds
mod Tests
use gpu_info_rs.Prelude.{
  ℕ, ◌-◌, ◌/◌, ◌≤◌, min, max, Bool, true, false, Option, none, some, Result, ok, err, ◌>>=◌, ok_or,
  ltb, ◌==◌, if◌then◌else◌, saturating_add, saturating_sub,
}
use gpu_info_rs.Os.{SysMemInfo, GpuMemInfo}

pub data Policy : Type 0 where
  installed available minimum : Policy

pub data BudgetError : Type 0 where
  unknown_ram unknown_vram : BudgetError

-- `VramInfo`, what the driver reports of its memory.
pub record VramInfo : Type 0 where
  pub used : ℕ
  pub budget : ℕ

abbrev pub pool_div : ℕ
pool_div = 16

abbrev pub pool_min : ℕ
pool_min = 67108864

abbrev pub pool_max : ℕ
pool_max = 268435456

-- `u64::clamp`.
abbrev pub clamp : ℕ → ℕ → ℕ → ℕ
clamp n lo hi = if ltb n lo then lo else if ltb hi n then hi else n

module _ (share : ℕ → ℕ) where
  -- The closure `share`: the fraction, capped by what the reserve leaves.
  abbrev pub capped : ℕ → ℕ → ℕ
  capped reserve base = min (share base) (saturating_sub base reserve)

  unfoldable pub ram_budget_from : (total avail : ℕ) → Policy → (reserve : ℕ) → ℕ
  ram_budget_from total avail installed reserve = capped reserve total
  ram_budget_from total avail available reserve = capped reserve avail
  ram_budget_from total avail minimum reserve =
      min (capped reserve total) (saturating_sub avail reserve)

  unfoldable pub ram : Option SysMemInfo → Result (ℕ × ℕ) BudgetError
  ram m = ok_or m unknown_ram >>= λ i. ok (i.total_bytes, i.available_bytes)

  unfoldable pub ram_budget : Option SysMemInfo → Policy → ℕ → Result ℕ BudgetError
  ram_budget m policy reserve = do
    (total, avail) ← ram m
    ok (ram_budget_from total avail policy reserve)

  unfoldable pub ram_budget_or : Option SysMemInfo → Option ℕ → Policy → ℕ → Result ℕ BudgetError
  ram_budget_or m (some b) policy reserve = ok b
  ram_budget_or m none policy reserve = ram_budget m policy reserve

module _ (share : Bool → ℕ → ℕ) where
  abbrev pub vram_budget_from : ℕ → Bool → ℕ
  vram_budget_from headroom unified = share unified headroom

  -- The headroom of a driver query: free, or else dedicated.
  abbrev pub headroom_of : GpuMemInfo → ℕ
  headroom_of g = if ltb 0 g.free_vram then g.free_vram else g.dedicated_vram

  unfoldable pub vram_budget : Option GpuMemInfo → Result ℕ BudgetError
  vram_budget g = ok_or g unknown_vram >>= λ i.
      if headroom_of i == 0
      then err unknown_vram
      else ok (vram_budget_from (headroom_of i) i.unified)

unfoldable pub live_headroom : Option VramInfo → Option ℕ
live_headroom none = none
live_headroom (some i) = some (saturating_sub i.budget i.used)

pub record VramPlan : Type 0 where
  pub atlas : ℕ
  pub decode : ℕ

pub data VramError : Type 0 where
  unknown : VramError
  too_small : (fixed planned headroom : ℕ) → (unified : Bool) → VramError

module _ (share : Bool → ℕ → ℕ) where
  abbrev pub decode_pool : ℕ → ℕ
  decode_pool planned = clamp (planned / pool_div) pool_min pool_max

  abbrev pub plan_of :
      (planned headroom : ℕ) → Bool → (fixed one_tile : ℕ) → Result VramPlan VramError
  plan_of planned headroom unified fixed one_tile =
      let decode = decode_pool planned in
      let fixed' = saturating_add fixed decode in
      let atlas = saturating_sub planned fixed' in
      if ltb atlas one_tile
      then err (too_small fixed' planned headroom unified)
      else ok (record { atlas = atlas; decode = decode })

  unfoldable pub plan_vram : Option ℕ → Bool → (fixed one_tile : ℕ) → Result VramPlan VramError
  plan_vram headroom unified fixed one_tile = ok_or headroom unknown >>= λ h.
      plan_of (vram_budget_from share h unified) h unified fixed one_tile
