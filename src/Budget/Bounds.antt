-- ===== src/Budget/Bounds.antt =====
-- What the budgets of src/budget.rs promise.
use gpu_info_rs.Prelude.{
  ℕ, ◌+◌, ◌≤◌, ◌<◌, ◌≡◌, refl, ◌⊎◌, inl, inr, Bool, Option, none, some, ok, err, arith, u64_max,
}
use gpu_info_rs.Os.{SysMemInfo}
use gpu_info_rs.Budget.{
  Policy, installed, available, minimum, BudgetError, unknown_ram, pool_min, pool_max,
  ram_budget_from, ram, ram_budget, ram_budget_or, VramPlan, VramError, too_small, plan_vram,
}

-- A budget of a policy leaves the reserve of each memory figure that the policy looks at.
abbrev pub Reserved : Policy → SysMemInfo → (reserve budget : ℕ) → Type 0
Reserved installed i reserve b = (b ≡ 0) ⊎ (b + reserve ≤ i.total_bytes)
Reserved available i reserve b = (b ≡ 0) ⊎ (b + reserve ≤ i.available_bytes)
Reserved minimum i reserve b =
    (b ≡ 0) ⊎ ((b + reserve ≤ i.total_bytes) × (b + reserve ≤ i.available_bytes))

module _ (share : ℕ → ℕ) where
  ram_budget_from-Reserved :
      (policy : Policy) (i : SysMemInfo) (reserve : ℕ)
      → Reserved policy i reserve
          (ram_budget_from share i.total_bytes i.available_bytes policy reserve)
  unfolding ram_budget_from
  ram_budget_from-Reserved installed i reserve = ground arith
  ram_budget_from-Reserved available i reserve = ground arith
  ram_budget_from-Reserved minimum i reserve = ground arith

  ram_budget-Reserved :
      (m : Option SysMemInfo) (policy : Policy) (reserve b : ℕ)
      → ram_budget share m policy reserve ≡ ok b
      → (i : SysMemInfo) × (m ≡ some i) × Reserved policy i reserve b
  unfolding ram_budget ram
  ram_budget-Reserved none policy reserve b e = cc
  ram_budget-Reserved (some i) policy reserve b e =
      let same : ram_budget_from share i.total_bytes i.available_bytes policy reserve ≡ b = cc in
      (i, refl, rw same at (ram_budget_from-Reserved policy i reserve))

  -- A RAM budget is the override, if there is one; else the system's figures are known, and the budget
  -- is nothing or leaves the reserve of every figure that its policy looks at, whatever the share.
  pub ram_budget_or-Reserved :
      (m : Option SysMemInfo) (over : Option ℕ) (policy : Policy) (reserve b : ℕ)
      → ram_budget_or share m over policy reserve ≡ ok b
      → (over ≡ some b)
        ⊎ (over ≡ none) × ((i : SysMemInfo) × (m ≡ some i) × Reserved policy i reserve b)
  unfolding ram_budget_or
  ram_budget_or-Reserved m (some c) policy reserve b e = inl cc
  ram_budget_or-Reserved m none policy reserve b e =
      inr (refl, ram_budget-Reserved m policy reserve b e)

  -- It fails only where neither an override nor the system's figures are known: no default is invented.
  pub ram_budget_or-unknown :
      (m : Option SysMemInfo) (over : Option ℕ) (policy : Policy) (reserve : ℕ) (x : BudgetError)
      → ram_budget_or share m over policy reserve ≡ err x
      → (x ≡ unknown_ram) × (over ≡ none) × (m ≡ none)
  unfolding ram_budget_or ram_budget ram
  ram_budget_or-unknown m (some c) policy reserve x e = cc
  ram_budget_or-unknown none none policy reserve x e = (cc, refl, refl)
  ram_budget_or-unknown (some i) none policy reserve x e = cc

module _ (share : Bool → ℕ → ℕ) where
  -- For a known headroom whose share is a `u64`, a plan divides that share: the fixed targets, a
  -- decode pool between its floor and its cap, and an atlas that holds a tile; only where a tile
  -- may be empty can the fixed part exceed the share, and then the atlas is empty.
  pub plan_vram_ok :
      (h : ℕ) (unified : Bool) (fixed one_tile : ℕ) (p : VramPlan)
      → share unified h ≤ u64_max
      → plan_vram share (some h) unified fixed one_tile ≡ ok p
      → (one_tile ≤ p.atlas)
        × (pool_min ≤ p.decode)
        × (p.decode ≤ pool_max)
        × ((fixed + p.decode + p.atlas ≡ share unified h)
            ⊎ (one_tile ≡ 0) × (p.atlas ≡ 0) × (share unified h < fixed + p.decode))
  unfolding plan_vram
  plan_vram_ok h unified fixed one_tile p u e = ground arith

  -- A refusal for size reports the share and the fixed part, which together leave less than a tile.
  pub plan_vram_too_small :
      (h : ℕ) (unified : Bool) (fixed one_tile : ℕ) (x : VramError)
      → fixed + pool_max ≤ u64_max
      → plan_vram share (some h) unified fixed one_tile ≡ err x
      → (held : ℕ) × (x ≡ too_small held (share unified h) h unified)
        × (fixed + pool_min ≤ held)
        × (share unified h < held + one_tile)
  unfolding plan_vram
  plan_vram_too_small h unified fixed one_tile x u e = ground arith
