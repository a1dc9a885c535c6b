-- ===== src/Wait.antt =====
-- Waiting for GPU work (src/wait.rs): why a wait fails, error scopes whose futures travel, checked
-- operations, submissions and their completion signals.
pub mod Error
pub mod Validation
pub mod Settling
pub mod Submission
pub mod Observation
mod Tests
