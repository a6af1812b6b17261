-- ===== src/Memory.antt =====
-- memory/admission.py, memory/beliefs.py and memory/reducer.py.
pub mod Event
pub mod Reducer
pub mod Equality
pub mod Records
pub mod Archived
pub mod Evidence
