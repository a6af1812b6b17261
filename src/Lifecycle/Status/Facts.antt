-- ===== src/Lifecycle/Status/Facts.antt =====
-- `LifecycleStatus` of domain/lifecycle.py, and the facts that `derive_lifecycle_status` reads of the
-- streams and the refusals. The governance of the constitution is joined to a status elsewhere.

use agentic_investment_os.Prelude.{
  Bool, ◌&&◌, Option, none, some, List, [], ◌∷◌, String, leb, ltb, if◌then◌else◌, get_last?,
}
use agentic_investment_os.Scheduler.Policy.{MarketSession}
use agentic_investment_os.Lifecycle.Reason.{AdvanceFailureReason}
use agentic_investment_os.Lifecycle.Checkpoint.{LifecyclePhase, NoActionReason, DecisionCheckpoint}
use agentic_investment_os.Lifecycle.Portfolio.{PortfolioCheckpoint}
use agentic_investment_os.Lifecycle.Command.{PinnedRunIdentity, UniverseSnapshot, AttentionArtifact}
use agentic_investment_os.Lifecycle.Stream.{LifecycleProgress, phase_number, present, or_else}
use agentic_investment_os.Lifecycle.Refusal.{DurableAdvanceRefusal, same_key}
use agentic_investment_os.Lifecycle.History.{DurableAdvanceConflict}

pub data LifecycleLiveness : Type 0 where
  not_started active failed_closed : LifecycleLiveness

pub record LifecycleStatus : Type 0 where
  pub active_phase : Option LifecyclePhase
  pub last_completed_cycle : Option MarketSession
  pub universe_snapshot_cycle : Option MarketSession
  pub pinned_run_identity : Option PinnedRunIdentity
  pub liveness : LifecycleLiveness
  pub durable_reason : Option AdvanceFailureReason
  pub universe_snapshot_id : Option String
  pub attention_artifact_cycle : Option MarketSession
  pub attention_artifact_id : Option String
  pub no_action_reason : Option NoActionReason
  pub portfolio_checkpoint : Option PortfolioCheckpoint
  pub decision_checkpoint : Option DecisionCheckpoint

abbrev pub status_not_started : LifecycleStatus
status_not_started = record {
  active_phase = none;
  last_completed_cycle = none;
  universe_snapshot_cycle = none;
  pinned_run_identity = none;
  liveness = LifecycleLiveness.not_started;
  durable_reason = none;
  universe_snapshot_id = none;
  attention_artifact_cycle = none;
  attention_artifact_id = none;
  no_action_reason = none;
  portfolio_checkpoint = none;
  decision_checkpoint = none;
}

-- `max` by the trading date of the request: the first of the latest
abbrev pub later_of : LifecycleProgress → LifecycleProgress → LifecycleProgress
later_of best p =
    if ltb best.request.session.trading_date p.request.session.trading_date then p else best

unfoldable pub latest : LifecycleProgress → List LifecycleProgress → LifecycleProgress
latest best [] = best
latest best (p ∷ ps) = latest (later_of best p) ps

unfoldable pub select : (LifecycleProgress → Bool) → List LifecycleProgress → List LifecycleProgress
select test [] = []
select test (p ∷ ps) = let rest = select test ps in if test p then p ∷ rest else rest

abbrev pub latest_of : List LifecycleProgress → Option LifecycleProgress
latest_of [] = none
latest_of (p ∷ ps) = some (latest p ps)

-- The latest progress that passes a test
unfoldable pub latest_where :
    (LifecycleProgress → Bool) → List LifecycleProgress → Option LifecycleProgress
unfolding latest select
latest_where test ps = latest_of (select test ps)

-- `_latest_universe_progress`
abbrev pub is_published : LifecycleProgress → Bool
is_published p = leb 3 (phase_number p.completed_phase) && leb (phase_number p.completed_phase) 10

abbrev pub cycle_of : Option LifecycleProgress → Option MarketSession
cycle_of none = none
cycle_of (some p) = some p.pinned_run_identity.cycle

abbrev pub id_of : Option UniverseSnapshot → Option String
id_of none = none
id_of (some s) = some s.snapshot_id

abbrev pub snapshot_id_of : Option LifecycleProgress → Option String
snapshot_id_of none = none
snapshot_id_of (some p) = id_of p.checkpoints.universe_snapshot

abbrev pub has_artifact : LifecycleProgress → Bool
has_artifact p = present p.checkpoints.attention_artifact

abbrev pub artifact_id : Option AttentionArtifact → Option String
artifact_id none = none
artifact_id (some a) = some a.artifact_id

abbrev pub artifact_id_of : Option LifecycleProgress → Option String
artifact_id_of none = none
artifact_id_of (some p) = artifact_id p.checkpoints.attention_artifact

-- The last refusal of a key
unfoldable pub last_refusal : String → List DurableAdvanceRefusal → Option DurableAdvanceRefusal
last_refusal key [] = none
last_refusal key (r ∷ rs) =
    or_else (last_refusal key rs) (if same_key r.idempotency_key (some key) then some r else none)

abbrev pub refusal_reason : Option DurableAdvanceRefusal → Option AdvanceFailureReason
refusal_reason none = none
refusal_reason (some r) = some r.reason

abbrev pub conflict_reason : Option DurableAdvanceConflict → Option AdvanceFailureReason
conflict_reason none = none
conflict_reason (some c) = some c.reason

-- `_reported_reason`
unfoldable pub reported_reason :
    List DurableAdvanceRefusal → List DurableAdvanceConflict → Option AdvanceFailureReason
reported_reason refusals conflicts =
    or_else (refusal_reason (get_last? refusals)) (conflict_reason (get_last? conflicts))
