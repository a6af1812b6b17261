-- ===== src/Scheduler.antt =====
-- domain/scheduler.py, application/scheduler.py and adapters/sqlite_scheduler.py.
pub mod Zone
pub mod Policy
pub mod Window
pub mod Status
pub mod Host
pub mod History
pub mod Ledger
pub mod Operations
pub mod Enumeration
pub mod Run
