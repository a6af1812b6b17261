-- ===== src/Lifecycle/Application.antt =====
-- The loop of `Advance.__call__` of application/lifecycle.py.
mod Interface
mod Loop
pub mod Due
mod Measure
pub mod Termination
unfoldable pub use Interface.*
unfoldable pub use Loop.*
