-- ===== src/Lifecycle.antt =====
-- The refusals of domain/lifecycle.py.
pub mod Reason
pub mod Checkpoint
pub mod Portfolio
pub mod Command
pub mod Stream
pub mod Receipt
pub mod Refusal
pub mod Completed
pub mod History
pub mod Decision
pub mod Extension
pub mod Decide
pub mod Completion
pub mod Application
pub mod Conflicts
pub mod Status
pub mod Replay
