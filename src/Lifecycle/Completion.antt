-- ===== src/Lifecycle/Completion.antt =====
-- Completed streams of domain/lifecycle.py, and the receipts that they are answered with.
mod Admission
pub mod Answered
unfoldable pub use Admission.*
