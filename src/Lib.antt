-- ===== src/Lib.antt =====
-- A model of the core of the agentic investment operating system: the scheduler that advances one
-- decision cycle for each trading session, the append-only history of beliefs, and the lifecycle
-- of an advance with its event streams, refusals and receipts.
--
-- The parts, and the files that model them:
--
-- - domain/temporal.py and the dates of the standard library: Temporal.antt (`UtcInstant`, counted in
--   microseconds from 0001-01-01T00:00:00Z) and Calendar.antt (ordinals of the proleptic Gregorian
--   calendar, `year`, `weekday`).
-- - domain/scheduler.py: Scheduler/Policy.antt (`SchedulerPolicy`, the pinned 2026 calendar),
--   Scheduler/Window.antt (`SessionWindow`, `build_session_window`), Scheduler/Status.antt (statuses,
--   claims, reports), Scheduler/Enumeration.antt (`session_windows_through`, `next_session_window`).
-- - adapters/sqlite_scheduler.py: Scheduler/History.antt (`_validate_history`,
--   `_status_from_history`), Scheduler/Ledger.antt (the table of events, its queries and CHECK
--   constraints, `_append_event`, `_load_cycle`) and Scheduler/Operations.antt (`claim`,
--   `record_outcome`, `snapshot`). An operation takes the database and returns the new one, or raises
--   and leaves the old one: each is one transaction.
-- - application/scheduler.py: Scheduler/Run.antt, Scheduler/Run/Due.antt and Scheduler/Run/Loop.antt
--   (`Scheduler._run_due` with all that it calls, and `Scheduler.status`), over a world of the ledger
--   and the rest of the host.
-- - memory/admission.py, memory/beliefs.py and memory/reducer.py: Memory/Event.antt (`BeliefEvent` and
--   its admission), Memory/Evidence.antt (`validate_belief_evidence`) and Memory/Reducer.antt
--   (`decide_belief_record`, the integrity of a history).
-- - domain/lifecycle.py: Lifecycle/Reason.antt (the reasons of a failure), Lifecycle/Checkpoint.antt
--   and Lifecycle/Portfolio.antt (what the phases of a run leave), Lifecycle/Command.antt (requests,
--   run identities, commands), Lifecycle/Receipt.antt and Lifecycle/Completed.antt (receipts that fail
--   closed, and those of completed runs), Lifecycle/Stream.antt (`_reconstruct_stream`),
--   Lifecycle/History.antt (`reconstruct_lifecycle`, `_validate_refusals`, `_validate_conflicts`),
--   Lifecycle/Refusal.antt (`decide_terminal_refusal`, `decide_invalid_history`, `_append_refusal`),
--   Lifecycle/Decision.antt (`_append_next_event`), Lifecycle/Decide.antt (`decide_advance`) and
--   Lifecycle/Status.antt (`derive_lifecycle_status`). All
--   checks of the reconstruction raise one exception, so they are Boolean tests.
-- - application/lifecycle.py: Lifecycle/Application.antt (the loop of `Advance.__call__` for a prepared
--   request). Its ledger decides with `decide_advance` on the history it holds, and appends.
--
-- Paths above are below src/agentic_investment_os/. The run reads the clock, takes a snapshot, lists
-- the due windows, and for each claims the session in the ledger, calls `Advance`, reads `Status` and
-- records the outcome. Several processes may run at once: Scheduler/Operations/Reachable.antt has
-- the claims and outcomes of any of them as the steps of a relation on databases.
--
-- Bounds: the loops over dates recur on the number of days that are left, the loops over rows and
-- windows on their lists. Only the loop of `Advance` has fuel, one for each round
-- (Lifecycle/Application/Termination.antt). All numbers are unbounded, as in Python;
-- policies carry their ranges (`policy_is_valid`). The minutes of a window are added in UTC, where the
-- source adds them in New York's local time: no window of a session holds a change of the clocks
-- (Scheduler/Window.antt).
--
-- Parameters: `Zone` (Scheduler/Zone.antt) stands for zoneinfo's New York, with the laws `ZoneLaws`;
-- `Host` (Scheduler/Host.antt) for SHA-256 over canonical JSON and for the receipts of `Advance` and
-- their text; `Outside` (Scheduler/Run.antt) for the clock, `Advance` and `Status`, which act on the
-- rest of the host as they like; `Admission` (Memory/Event.antt) for the patterns, decimals and
-- hashes of belief events; `Fingerprints` (Lifecycle/Command.antt) for SHA-256 of run identities and
-- for the checks of attention artifacts; `Capabilities` (Lifecycle/Application/Interface.antt) for
-- what the loop of `Advance` calls. Tests/NewYork.antt and Tests/Fixture.antt give instances.
--
-- Not modelled: files, locks and the schema comparison of SQLite (input and output), the text forms
-- of instants, dates and JSON (an event's columns are compared as values), and the parts of the
-- program beside these: the lifecycle's tables and its envelopes, the stored belief ledger
-- and its graph, evidence, research, portfolio, governance, replay and publication.
pub mod Prelude
pub mod Temporal
pub mod Calendar
pub mod Scheduler
pub mod Memory
pub mod Lifecycle
pub mod Tests
