-- ===== src/Lifecycle/Stream.antt =====
-- Event streams of domain/lifecycle.py: `_EVENT_SEQUENCE`, `LifecycleEvent`, `LifecycleProgress` and
-- `_reconstruct_stream`. The checkpoints that the loop gathers are one record here.
mod Order
mod Events
mod Checks
mod Reconstruct
mod Steps
mod Gathered
unfoldable pub use Order.*
unfoldable pub use Events.*
unfoldable pub use Checks.*
unfoldable pub use Reconstruct.*
pub use Steps.*
pub use Gathered.*
