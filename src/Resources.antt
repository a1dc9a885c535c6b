-- ===== src/Resources.antt =====
-- Charged resource reuse (src/resources.rs).
pub mod Wgpu
pub mod Spec
pub mod Sizes
pub mod Prepare
pub mod Funding
pub mod Batch
pub mod Transfer
pub mod Recycle
pub mod Harvest
pub mod Accounting
mod Tests
