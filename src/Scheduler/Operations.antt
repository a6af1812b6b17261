-- ===== src/Scheduler/Operations.antt =====
-- `claim`, `record_outcome` and `snapshot` of `SQLiteSchedulerLedger`
-- (adapters/sqlite_scheduler.py).
pub mod Events
pub mod Verdict
pub mod Snapshots
pub mod Finality
pub mod Reachable
pub mod Ownership
pub mod Preserves
pub mod Missed
use agentic_investment_os.Prelude.{
  ℕ, ◌+◌, ◌-◌, ◌*◌, Bool, ◌||◌, not, Option, none, some, List, [], ◌∷◌, ltb, ◌==◌, if◌then◌else◌,
  Result, ok, err, invalid, policy_conflict, ◌>>=◌, ◌>>◌, raise_if,
}
use agentic_investment_os.Temporal.{UtcInstant, microseconds_per_second}
use agentic_investment_os.Scheduler.Policy.{MarketSession, SchedulerPolicy, policy_eq}
use agentic_investment_os.Scheduler.Window.{SessionWindow, build_session_window}
use agentic_investment_os.Scheduler.Status.{
  ScheduledSessionStatus, SchedulerClaim, SchedulerClaimDisposition, SchedulerSnapshot,
  has_hash_length, is_open,
}
use agentic_investment_os.Scheduler.Host.{EventKind, Host, receipt_matches_session}
use agentic_investment_os.Scheduler.History.{Row, status_from_history}
use agentic_investment_os.Scheduler.Ledger.{
  Database, select_cycle, distinct_cycles, load_cycle, load_cycle_validating_all, append_event,
}

-- A claim that appended an event.
abbrev appended :
    SessionWindow
    → SchedulerClaimDisposition
    → ℕ
    → ScheduledSessionStatus × Database
    → Result (SchedulerClaim × Database)
appended w d attempt (status, db) =
    ok (record { window = w; disposition = d; attempt = attempt; status = status }, db)

-- A claim that only observed the last status.
abbrev observed :
    SessionWindow
    → SchedulerClaimDisposition
    → ScheduledSessionStatus
    → Database
    → Result (SchedulerClaim × Database)
observed w d current db =
    ok (record { window = w; disposition = d; attempt = current.attempts; status = current }, db)

module _ {Receipt : Type 0} (h : Host Receipt) where
  -- The session has events; `current` is its status. `total_seconds()` and its comparison with an
  -- integer below 2 ^ 17 are exact at microsecond precision.
  unfoldable pub claim_existing :
      SchedulerPolicy
      → SessionWindow
      → UtcInstant
      → Database
      → ScheduledSessionStatus
      → Result (SchedulerClaim × Database)
  claim_existing policy w recorded_at db current =
      if ltb recorded_at.value current.recorded_at.value
      then err invalid
      else if not (is_open current.disposition)
      then observed w SchedulerClaimDisposition.terminal current db
      else if ltb (recorded_at.value - current.recorded_at.value)
          (policy.recovery_delay_seconds * microseconds_per_second)
      then observed w SchedulerClaimDisposition.wait current db
      else append_event h w EventKind.resumed (current.attempts + 1) recorded_at none none db
        >>= appended w SchedulerClaimDisposition.resume (current.attempts + 1)

  -- The session has no event.
  unfoldable pub claim_new :
      SessionWindow → UtcInstant → Database → Result (SchedulerClaim × Database)
  claim_new w recorded_at db =
      if ltb w.missed_at.value recorded_at.value
      then append_event h w EventKind.missed 0 recorded_at none none db
        >>= appended w SchedulerClaimDisposition.missed 0
      else if ltb recorded_at.value w.scheduled_at.value
      then err invalid
      else append_event h w EventKind.started 1 recorded_at none none db
        >>= appended w SchedulerClaimDisposition.start 1

  unfoldable pub claim_from :
      SchedulerPolicy
      → SessionWindow
      → UtcInstant
      → Database
      → Option ScheduledSessionStatus
      → Result (SchedulerClaim × Database)
  unfolding claim_existing claim_new
  claim_from policy w recorded_at db none = claim_new w recorded_at db
  claim_from policy w recorded_at db (some current) = claim_existing policy w recorded_at db current

  unfoldable pub claim :
      SchedulerPolicy → SessionWindow → UtcInstant → Database → Result (SchedulerClaim × Database)
  claim policy w recorded_at db = do
    raise_if (not (policy_eq db.policy policy)) policy_conflict
    history ← load_cycle_validating_all h w db.events
    current ← status_from_history w history
    claim_from policy w recorded_at db current

  abbrev pub outcome_kind : Bool → EventKind
  outcome_kind failed = if failed then EventKind.refused else EventKind.completed

  -- The part of `record_outcome` after the last status is known.
  unfoldable pub record_outcome_from :
      SchedulerClaim
      → Receipt
      → UtcInstant
      → Database
      → Option ScheduledSessionStatus
      → Result (ScheduledSessionStatus × Database)
  record_outcome_from claim receipt recorded_at db none = err invalid
  record_outcome_from claim receipt recorded_at db (some current) =
      if not (is_open current.disposition)
      then err invalid
      else if not (current.attempts == claim.attempt)
          || ltb recorded_at.value current.recorded_at.value
      then err invalid
      else append_event h claim.window (outcome_kind (h.receipt_failed receipt)) claim.attempt
          recorded_at (some (h.receipt_text receipt)) (some (h.receipt_hash receipt)) db

  unfoldable pub record_outcome :
      SchedulerPolicy
      → SchedulerClaim
      → Receipt
      → UtcInstant
      → Database
      → Result (ScheduledSessionStatus × Database)
  unfolding record_outcome_from
  record_outcome policy claim receipt recorded_at db = do
    raise_if (not (receipt_matches_session h receipt claim.window.cycle)) invalid
    raise_if (not (has_hash_length (h.receipt_hash receipt))) invalid
    raise_if (not (policy_eq db.policy policy)) policy_conflict
    history ← load_cycle_validating_all h claim.window db.events
    current ← status_from_history claim.window history
    record_outcome_from claim receipt recorded_at db current

  -- The loop of `snapshot`
  unfoldable pub snapshot_sessions :
      SchedulerPolicy → List Row → List MarketSession → Result (List ScheduledSessionStatus)
  snapshot_sessions policy rows [] = ok []
  snapshot_sessions policy rows (cycle ∷ cycles) = do
    window ←
        build_session_window h.zone cycle policy.advance_minutes_before_open
          policy.maximum_lateness_minutes
    elim window [
      | none ↦ err invalid
      | some w ↦ do
        raise_if (ltb cycle.trading_date policy.first_session.trading_date) invalid
        history ← load_cycle h w rows
        status ← status_from_history w history
        elim status [
          | none ↦ err invalid
          | some s ↦ do rest ← snapshot_sessions policy rows cycles; ok (s ∷ rest)
        ]
    ]

  unfoldable pub snapshot : SchedulerPolicy → Database → Result SchedulerSnapshot
  unfolding snapshot_sessions
  snapshot policy db = do
    raise_if (not (policy_eq db.policy policy)) policy_conflict
    sessions ← snapshot_sessions policy db.events (distinct_cycles db.events)
    ok (record { policy = policy; sessions = sessions })
