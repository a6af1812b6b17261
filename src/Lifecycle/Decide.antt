-- ===== src/Lifecycle/Decide.antt =====
-- `decide_advance` of domain/lifecycle.py.
mod Streams
mod Advance
unfoldable pub use Streams.*
unfoldable pub use Advance.*
