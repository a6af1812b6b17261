-- ===== src/Lifecycle/History.antt =====
-- Histories of domain/lifecycle.py: `LifecycleHistory`, `reconstruct_lifecycle`, and the checks of
-- refusals and conflicts.
mod Records
mod Association
mod Reconstruct
unfoldable pub use Records.*
unfoldable pub use Association.*
unfoldable pub use Reconstruct.*
