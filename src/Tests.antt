-- ===== src/Tests.antt =====
-- Concrete inputs: a host that meets the laws, runs of the code, and the theorems at such inputs.
pub mod NewYork
pub mod Fixture
pub mod Ledger
pub mod Run
pub mod Beliefs
pub mod Streams
pub mod Statuses
pub mod Advances
pub mod Extensions
pub mod Loops
pub mod Refusals
