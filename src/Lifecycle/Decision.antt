-- ===== src/Lifecycle/Decision.antt =====
-- The next transition of a stream, of domain/lifecycle.py: `_recovery_for_progress`,
-- `_append_next_event` and the decisions they return.
mod Answer
mod Effects
mod Event
mod Next
unfoldable pub use Answer.*
unfoldable pub use Effects.*
unfoldable pub use Event.*
unfoldable pub use Next.*
