-- ===== src/Pool/Interface.antt =====
-- The trait `Pooled` of src/pool.rs: what a pool knows of a resource.
use gpu_info_rs.Prelude.{ℕ, Bool}

pub record Pooled {ℓ} (R : Type ℓ) : Type (ℓ ⊔ 1) where
  pub Key : Type 0
  -- `==` of `Key: PartialEq`.
  pub key_eq : Key → Key → Bool
  pub key : R → Key
  pub bytes : R → ℕ
