-- ===== src/Lifecycle/Status.antt =====
-- `derive_lifecycle_status` of domain/lifecycle.py.
mod Facts
mod Derive
pub mod Total
pub mod Active
unfoldable pub use Facts.*
unfoldable pub use Derive.*
