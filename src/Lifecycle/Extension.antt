-- ===== src/Lifecycle/Extension.antt =====
-- Streams of domain/lifecycle.py that are extended: the events that are appended, and what the
-- reconstruction makes of them.
mod Appended
pub mod Streams
pub mod Phases
pub mod Start
pub mod Refusals
unfoldable pub use Appended.*
