-- ===== src/Lifecycle/Decision/Next.antt =====
-- The last part of `_append_next_event` of domain/lifecycle.py: what is checked before the event of a
-- phase is appended, and the receipts of the last phases.
use agentic_investment_os.Prelude.{
  ℕ, ◌+◌, ◌&&◌, not, Option, none, some, str_eq, ◌==◌, Result, ok, err, index_error,
  invalid_lifecycle_state, ◌>>=◌, if◌then◌else◌,
}
use agentic_investment_os.Temporal.{UtcInstant}
use agentic_investment_os.Lifecycle.Checkpoint.{
  LifecyclePhase, NoActionReason, ResearchCheckpoint, DecisionCheckpoint, empty,
}
use agentic_investment_os.Lifecycle.Portfolio.{PortfolioCheckpoint, is_refused}
use agentic_investment_os.Lifecycle.Command.{AttentionArtifact, AdvanceCommand, Fingerprints}
use agentic_investment_os.Lifecycle.Stream.{
  LifecycleEvent, LifecycleProgress, SequenceEntry, entry_at, or_else, same, present, artifact_fits,
  portfolio_fits, decision_fits,
}
use agentic_investment_os.Lifecycle.Completed.{
  AdvanceRecovery, CompletedReceipt, advanced_receipt, admit_receipt,
}
use agentic_investment_os.Lifecycle.History.{
  LifecycleHistory, attention_history, reconstruct_lifecycle,
}
use agentic_investment_os.Lifecycle.Decision.Answer.{
  AdvanceAttempt, AdvanceDecision, append_event, append_completed, require,
}
use agentic_investment_os.Lifecycle.Decision.Effects.{early_return}
use agentic_investment_os.Lifecycle.Decision.Event.{
  selected_artifact, done_checkpoint, published_checkpoint, published_id, next_event,
}

-- `AdvanceReceipt.advanced` of a progress, with the portfolio and the decision of a last phase
unfoldable pub completed_receipt :
    Fingerprints
    → LifecycleProgress
    → AdvanceRecovery
    → UtcInstant
    → PortfolioCheckpoint
    → Option DecisionCheckpoint
    → Option NoActionReason
    → Result CompletedReceipt
completed_receipt h p recovery recorded_at portfolio decision reason = do
  snapshot ← require p.checkpoints.universe_snapshot
  capture ← require p.checkpoints.evidence_capture
  artifact ← require p.checkpoints.attention_artifact
  dossier ← require p.checkpoints.dossier_checkpoint
  research ← require p.checkpoints.research_checkpoint
  memory ← require p.checkpoints.memory_checkpoint
  admit_receipt h (
      advanced_receipt p.pinned_run_identity snapshot recovery recorded_at capture artifact dossier
        research memory portfolio decision reason)

-- A last event, with the receipt of the run
unfoldable pub finish : LifecycleEvent → Result CompletedReceipt → Result AdvanceDecision
finish e receipt = receipt >>= λ r. ok (append_completed e r)

module _ (h : Fingerprints) (p : LifecycleProgress) (recorded_at : UtcInstant) where
  abbrev attempt_of : AdvanceRecovery → ℕ → AdvanceAttempt
  attempt_of recovery sequence = record { recovery = some recovery; last_sequence = some sequence }

  unfoldable pub append_plain : AdvanceRecovery → LifecycleEvent → Result AdvanceDecision
  append_plain recovery e = ok (append_event e (attempt_of recovery e.sequence))

  unfoldable pub append_attention :
      LifecycleHistory
      → AdvanceRecovery
      → LifecycleEvent
      → Option AttentionArtifact
      → Result AdvanceDecision
  unfolding append_plain
  append_attention history recovery e none = err invalid_lifecycle_state
  append_attention history recovery e (some a) = do
    capture ← require p.checkpoints.evidence_capture
    snapshot ← require p.checkpoints.universe_snapshot
    ps ← reconstruct_lifecycle h history
    if artifact_fits h p.pinned_run_identity snapshot capture a
          && a.available_at.value == recorded_at.value
          && str_eq a.history_fingerprint (h.attention_history_fingerprint (attention_history ps))
        then append_plain recovery e
        else err invalid_lifecycle_state

  unfoldable pub append_memory :
      Option NoActionReason
      → AdvanceRecovery
      → LifecycleEvent
      → Option ResearchCheckpoint
      → Result AdvanceDecision
  unfolding append_plain
  append_memory reason recovery e none = err invalid_lifecycle_state
  append_memory reason recovery e (some memory) =
      if same (empty memory.artifact_ids) (present reason)
      then append_plain recovery e
      else err invalid_lifecycle_state

  unfoldable pub append_portfolio :
      Option NoActionReason
      → AdvanceRecovery
      → LifecycleEvent
      → Option PortfolioCheckpoint
      → Result AdvanceDecision
  unfolding append_plain completed_receipt finish
  append_portfolio reason recovery e none = err invalid_lifecycle_state
  append_portfolio reason recovery e (some portfolio) =
      if not (portfolio_fits p.pinned_run_identity recorded_at portfolio)
      then err invalid_lifecycle_state
      else if is_refused portfolio
      then finish e (completed_receipt h p recovery recorded_at portfolio none reason)
      else append_plain recovery e

  unfoldable pub append_decision :
      AdvanceRecovery → LifecycleEvent → Option DecisionCheckpoint → Result AdvanceDecision
  unfolding completed_receipt finish
  append_decision recovery e none = err invalid_lifecycle_state
  append_decision recovery e (some d) = do
    portfolio ← require p.checkpoints.portfolio_checkpoint
    if decision_fits recorded_at portfolio d
        then finish e (
            completed_receipt h p recovery recorded_at portfolio (some d)
              (or_else p.checkpoints.no_action_reason d.no_action_reason))
        else err invalid_lifecycle_state

  -- The branches of `_append_next_event` after the event is made
  unfoldable pub append_checked :
      LifecycleHistory
      → AdvanceCommand
      → AdvanceRecovery
      → LifecycleEvent
      → Option LifecyclePhase
      → Result AdvanceDecision
  unfolding append_plain append_attention append_memory append_portfolio append_decision
  append_checked history c recovery e (some LifecyclePhase.select_attention) =
      append_attention history recovery e (selected_artifact c.attention_selection)
  append_checked history c recovery e (some LifecyclePhase.update_memory) =
      append_memory c.no_action_reason recovery e (done_checkpoint c.memory_update)
  append_checked history c recovery e (some LifecyclePhase.construct_portfolio) =
      append_portfolio c.no_action_reason recovery e c.portfolio_construction
  append_checked history c recovery e (some LifecyclePhase.publish_decision) =
      append_decision recovery e (published_checkpoint c.decision_publication)
  append_checked history c recovery e _ = append_plain recovery e

  -- After the early returns
  unfoldable pub append_step :
      LifecycleHistory
      → AdvanceCommand
      → AdvanceRecovery
      → SequenceEntry
      → Option AdvanceDecision
      → Result AdvanceDecision
  unfolding append_checked published_id
  append_step history c recovery s (some decision) = ok decision
  append_step history c recovery s none = do
    published ← published_id p s.publishes_snapshot
    append_checked history c recovery (next_event h c (p.sequence + 1) s recorded_at published)
        s.phase

  unfoldable pub append_at :
      LifecycleHistory
      → AdvanceCommand
      → AdvanceRecovery
      → Option SequenceEntry
      → Result AdvanceDecision
  unfolding append_step
  append_at history c recovery none = err index_error
  append_at history c recovery (some s) = do
    early ← early_return history c recorded_at h p s.phase
    append_step history c recovery s early

-- `_append_next_event`
unfoldable pub append_next_event :
    Fingerprints
    → LifecycleHistory
    → LifecycleProgress
    → AdvanceCommand
    → AdvanceRecovery
    → UtcInstant
    → Result AdvanceDecision
unfolding append_at
append_next_event h history p c recovery recorded_at =
    append_at h p recorded_at history c recovery (entry_at (p.sequence + 1))
