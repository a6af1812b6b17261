-- ===== src/Lifecycle/History/Records.antt =====
-- `LifecycleHistory` of domain/lifecycle.py, its appends, and lookups in the streams
-- that it is reconstructed to.
use agentic_investment_os.Prelude.{
  ℕ, ◌+◌, Bool, false, ◌&&◌, ◌||◌, Option, none, some, List, [], ◌∷◌, ◌++◌, String, str_eq,
  if◌then◌else◌,
}
use agentic_investment_os.Lifecycle.Reason.{AdvanceFailureReason}
use agentic_investment_os.Lifecycle.Checkpoint.{LifecyclePhase}
use agentic_investment_os.Lifecycle.Portfolio.{PortfolioCheckpoint, is_refused}
use agentic_investment_os.Lifecycle.Stream.{LifecycleEvent, LifecycleProgress, is_phase}
use agentic_investment_os.Lifecycle.Refusal.{DurableAdvanceRefusal}

pub record DurableAdvanceConflict : Type 0 where
  pub idempotency_key : String
  pub reason : AdvanceFailureReason

pub record LifecycleHistory : Type 0 where
  pub events : List LifecycleEvent
  pub refusals : List DurableAdvanceRefusal
  pub conflicts : List DurableAdvanceConflict
  pub occupied_stream_ids : List String
  pub next_refusal_sequence : Option ℕ

pub data LifecycleRecord : Type 0 where
  event_record : LifecycleEvent → LifecycleRecord
  refusal_record : DurableAdvanceRefusal → LifecycleRecord
  conflict_record : DurableAdvanceConflict → LifecycleRecord

-- `LifecycleHistory.append`
unfoldable pub append : LifecycleHistory → LifecycleRecord → LifecycleHistory
append h (event_record e) = record {
  events = h.events ++ e ∷ [];
  refusals = h.refusals;
  conflicts = h.conflicts;
  occupied_stream_ids = e.stream_id ∷ h.occupied_stream_ids;
  next_refusal_sequence = h.next_refusal_sequence;
}
append h (refusal_record r) = record {
  events = h.events;
  refusals = h.refusals ++ r ∷ [];
  conflicts = h.conflicts;
  occupied_stream_ids = h.occupied_stream_ids;
  next_refusal_sequence = some (r.sequence + 1);
}
append h (conflict_record c) = record {
  events = h.events;
  refusals = h.refusals;
  conflicts = h.conflicts ++ c ∷ [];
  occupied_stream_ids = h.occupied_stream_ids;
  next_refusal_sequence = h.next_refusal_sequence;
}

abbrev pub refused_portfolio : Option PortfolioCheckpoint → Bool
refused_portfolio none = false
refused_portfolio (some p) = is_refused p

-- `LifecycleProgress.is_complete`
unfoldable pub is_complete : LifecycleProgress → Bool
is_complete p =
    is_phase p.completed_phase LifecyclePhase.publish_decision
    || (is_phase p.completed_phase LifecyclePhase.construct_portfolio
        && refused_portfolio p.checkpoints.portfolio_checkpoint)

-- `progress_by_key.get`: the keys of reconstructed streams are distinct.
unfoldable pub find_progress : String → List LifecycleProgress → Option LifecycleProgress
find_progress key [] = none
find_progress key (p ∷ ps) =
    if str_eq p.request.idempotency_key key then some p else find_progress key ps
