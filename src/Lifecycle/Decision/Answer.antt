-- ===== src/Lifecycle/Decision/Answer.antt =====
-- `AdvanceAttempt`, the decisions of domain/lifecycle.py, and what a decision reads of a progress.
use agentic_investment_os.Prelude.{
  ℕ, Bool, true, ◌&&◌, Option, none, some, List, str_eq, Result, ok, err, invalid_lifecycle_state,
  ltb, if◌then◌else◌,
}
use agentic_investment_os.Lifecycle.Checkpoint.{
  NoActionReason, EvidenceCaptureCheckpoint, ResearchCheckpoint,
}
use agentic_investment_os.Lifecycle.Portfolio.{PortfolioCheckpoint}
use agentic_investment_os.Lifecycle.Command.{
  PinnedRunIdentity, UniverseSnapshot, AttentionArtifact, AdvanceCommand, same_request,
  same_identity,
}
use agentic_investment_os.Lifecycle.Stream.{LifecycleEvent, LifecycleProgress}
use agentic_investment_os.Lifecycle.Receipt.{AdvanceReceipt}
use agentic_investment_os.Lifecycle.Refusal.{LifecycleDecision}
use agentic_investment_os.Lifecycle.Completed.{AdvanceRecovery, CompletedReceipt}
use agentic_investment_os.Lifecycle.History.{DurableAdvanceConflict}

pub record AdvanceAttempt : Type 0 where
  pub recovery : Option AdvanceRecovery
  pub last_sequence : Option ℕ

pub data AdvanceDecision : Type 0 where
  -- a receipt that fails closed, alone or with its durable refusal
  refuse : LifecycleDecision → AdvanceDecision
  append_conflict : DurableAdvanceConflict → AdvanceReceipt → AdvanceDecision
  append_event : LifecycleEvent → AdvanceAttempt → AdvanceDecision
  append_completed : LifecycleEvent → CompletedReceipt → AdvanceDecision
  return_completed : CompletedReceipt → AdvanceDecision
  perform_evidence_capture : PinnedRunIdentity → UniverseSnapshot → AdvanceDecision
  perform_attention_selection :
      PinnedRunIdentity
      → UniverseSnapshot
      → EvidenceCaptureCheckpoint
      → List AttentionArtifact
      → AdvanceDecision
  perform_dossier_build :
      PinnedRunIdentity
      → UniverseSnapshot
      → EvidenceCaptureCheckpoint
      → AttentionArtifact
      → AdvanceDecision
  perform_research : PinnedRunIdentity → ResearchCheckpoint → AttentionArtifact → AdvanceDecision
  perform_memory_update :
      PinnedRunIdentity → ResearchCheckpoint → AttentionArtifact → AdvanceDecision
  perform_portfolio_construction :
      PinnedRunIdentity
      → ResearchCheckpoint
      → ResearchCheckpoint
      → ResearchCheckpoint
      → AttentionArtifact
      → Option NoActionReason
      → AdvanceDecision
  perform_decision_publication :
      PinnedRunIdentity
      → ResearchCheckpoint
      → ResearchCheckpoint
      → PortfolioCheckpoint
      → Option NoActionReason
      → AdvanceDecision

-- The `require_` methods of `LifecycleProgress`
abbrev pub require {ℓ} : {A : Type ℓ} → Option A → Result A
require none = err invalid_lifecycle_state
require (some a) = ok a

abbrev observed_later : ℕ → Option ℕ → Bool
observed_later sequence none = true
observed_later sequence (some last) = ltb last sequence

abbrev recovery_after :
    LifecycleProgress → AdvanceAttempt → Option AdvanceRecovery → AdvanceRecovery
recovery_after p a none = AdvanceRecovery.resumed
recovery_after p a (some r) =
    if observed_later p.sequence a.last_sequence then AdvanceRecovery.resumed else r

-- `_recovery_for_progress`
unfoldable pub recovery_for_progress : LifecycleProgress → AdvanceAttempt → AdvanceRecovery
recovery_for_progress p a = recovery_after p a a.recovery

abbrev same_snapshot : Option UniverseSnapshot → UniverseSnapshot → Bool
same_snapshot none s = true
same_snapshot (some t) s = str_eq t.snapshot_id s.snapshot_id

-- `_advance_matches_progress`
unfoldable pub advance_matches_progress : LifecycleProgress → AdvanceCommand → Bool
advance_matches_progress p c =
    same_request p.request c.request
    && same_identity p.pinned_run_identity c.pinned_run_identity
    && same_snapshot p.checkpoints.universe_snapshot c.universe_snapshot
