-- ===== src/Work.antt =====
-- Owned command buffers and the bounded queue that retains them (src/wait/work.rs).
pub mod State
pub mod Entry
pub mod Collect
pub mod Submit
pub mod Shutdown
pub mod Slots
pub mod Rounds
pub mod Conservation
pub mod Acceptance
pub mod Refusal
pub mod Retirement
pub mod Marking
pub mod Commitment
pub mod Order
pub mod Draining
pub mod Recording
pub mod Waiting
pub mod Deadline
mod Tests
