-- ===== src/Lifecycle/Decision/Effects.antt =====
-- The first part of `_append_next_event` of domain/lifecycle.py: the effect that the next phase still
-- needs is asked for, and one that was refused makes the refusal durable.
use agentic_investment_os.Prelude.{
  Option, none, some, List, [], ◌∷◌, Result, ok, ◌>>=◌, if◌then◌else◌,
}
use agentic_investment_os.Temporal.{UtcInstant}
use agentic_investment_os.Lifecycle.Reason.{
  AdvanceFailureReason, AttentionRefusalReason, DecisionPublicationRefusalReason,
}
use agentic_investment_os.Lifecycle.Checkpoint.{
  LifecyclePhase, EvidenceCaptureCheckpoint, ResearchRefusal, is_complete_capture,
}
use agentic_investment_os.Lifecycle.Portfolio.{PortfolioCheckpoint}
use agentic_investment_os.Lifecycle.Command.{
  AttentionArtifact, AttentionSelection, ResearchOutcome, DecisionPublication, AdvanceCommand,
  Fingerprints,
}
use agentic_investment_os.Lifecycle.Stream.{LifecycleProgress}
use agentic_investment_os.Lifecycle.Refusal.{append_refusal}
use agentic_investment_os.Lifecycle.History.{LifecycleHistory, reconstruct_lifecycle}
use agentic_investment_os.Lifecycle.Decision.Answer.{
  AdvanceDecision, refuse, perform_evidence_capture, perform_attention_selection,
  perform_dossier_build, perform_research, perform_memory_update, perform_portfolio_construction,
  perform_decision_publication, require,
}

-- A decision that ends the function, or none where it goes on.
abbrev pub EarlyReturn : Type 0
EarlyReturn = Result (Option AdvanceDecision)

abbrev add_present : Option AttentionArtifact → List AttentionArtifact → List AttentionArtifact
add_present none artifacts = artifacts
add_present (some a) artifacts = a ∷ artifacts

-- The artifacts of the streams, in the streams' order
unfoldable pub attention_artifacts : List LifecycleProgress → List AttentionArtifact
attention_artifacts [] = []
attention_artifacts (p ∷ ps) = add_present p.checkpoints.attention_artifact (attention_artifacts ps)

module _ (history : LifecycleHistory) (c : AdvanceCommand) (recorded_at : UtcInstant) where
  -- `_append_refusal` of the command's key and session
  unfoldable pub refuse_effect :
      AdvanceFailureReason
      → Option EvidenceCaptureCheckpoint
      → Option AttentionRefusalReason
      → Option ResearchRefusal
      → Option DecisionPublicationRefusalReason
      → EarlyReturn
  refuse_effect reason evidence attention research publication = do
    d ←
        append_refusal history.refusals history.next_refusal_sequence
          (some c.request.idempotency_key) reason recorded_at (some c.request.session) evidence
          attention research publication
    ok (some (refuse d))

  unfoldable pub capture_effect : LifecycleProgress → Option EvidenceCaptureCheckpoint → EarlyReturn
  unfolding refuse_effect
  capture_effect p none = do
    snapshot ← require p.checkpoints.universe_snapshot
    ok (some (perform_evidence_capture p.pinned_run_identity snapshot))
  capture_effect p (some capture) =
      if is_complete_capture capture
      then ok none
      else refuse_effect AdvanceFailureReason.evidence_capture_failed (some capture) none none none

  unfoldable pub attention_effect :
      Fingerprints → LifecycleProgress → Option AttentionSelection → EarlyReturn
  unfolding refuse_effect attention_artifacts
  attention_effect h p none = do
    snapshot ← require p.checkpoints.universe_snapshot
    capture ← require p.checkpoints.evidence_capture
    ps ← reconstruct_lifecycle h history
    ok (
        some (
          perform_attention_selection p.pinned_run_identity snapshot capture
            (attention_artifacts ps)))
  attention_effect h p (some (AttentionSelection.not_selected reason)) = do
    capture ← require p.checkpoints.evidence_capture
    refuse_effect AdvanceFailureReason.attention_selection_failed (some capture) (some reason) none
        none
  attention_effect h p (some (AttentionSelection.selected a)) = ok none

  unfoldable pub dossier_effect : LifecycleProgress → Option ResearchOutcome → EarlyReturn
  unfolding refuse_effect
  dossier_effect p none = do
    snapshot ← require p.checkpoints.universe_snapshot
    capture ← require p.checkpoints.evidence_capture
    artifact ← require p.checkpoints.attention_artifact
    ok (some (perform_dossier_build p.pinned_run_identity snapshot capture artifact))
  dossier_effect p (some (ResearchOutcome.research_refused r)) =
      refuse_effect AdvanceFailureReason.research_failed none none (some r) none
  dossier_effect p (some (ResearchOutcome.research_done r)) = ok none

  unfoldable pub research_effect : LifecycleProgress → Option ResearchOutcome → EarlyReturn
  unfolding refuse_effect
  research_effect p none = do
    dossier ← require p.checkpoints.dossier_checkpoint
    artifact ← require p.checkpoints.attention_artifact
    ok (some (perform_research p.pinned_run_identity dossier artifact))
  research_effect p (some (ResearchOutcome.research_refused r)) =
      refuse_effect AdvanceFailureReason.research_failed none none (some r) none
  research_effect p (some (ResearchOutcome.research_done r)) = ok none

  unfoldable pub memory_effect : LifecycleProgress → Option ResearchOutcome → EarlyReturn
  unfolding refuse_effect
  memory_effect p none = do
    research ← require p.checkpoints.research_checkpoint
    artifact ← require p.checkpoints.attention_artifact
    ok (some (perform_memory_update p.pinned_run_identity research artifact))
  memory_effect p (some (ResearchOutcome.research_refused r)) =
      refuse_effect AdvanceFailureReason.memory_update_failed none none (some r) none
  memory_effect p (some (ResearchOutcome.research_done r)) = ok none

  unfoldable pub portfolio_effect : LifecycleProgress → Option PortfolioCheckpoint → EarlyReturn
  portfolio_effect p none = do
    dossier ← require p.checkpoints.dossier_checkpoint
    research ← require p.checkpoints.research_checkpoint
    memory ← require p.checkpoints.memory_checkpoint
    artifact ← require p.checkpoints.attention_artifact
    ok (
        some (
          perform_portfolio_construction p.pinned_run_identity dossier research memory artifact
            p.checkpoints.no_action_reason))
  portfolio_effect p (some portfolio) = ok none

  unfoldable pub publication_effect : LifecycleProgress → Option DecisionPublication → EarlyReturn
  unfolding refuse_effect
  publication_effect p none = do
    dossier ← require p.checkpoints.dossier_checkpoint
    research ← require p.checkpoints.research_checkpoint
    portfolio ← require p.checkpoints.portfolio_checkpoint
    ok (
        some (
          perform_decision_publication p.pinned_run_identity dossier research portfolio
            p.checkpoints.no_action_reason))
  publication_effect p (some (DecisionPublication.not_published reason)) =
      refuse_effect AdvanceFailureReason.decision_publication_failed none none none (some reason)
  publication_effect p (some (DecisionPublication.published d)) = ok none

  -- The early returns of `_append_next_event`, at its next phase
  unfoldable pub early_return :
      Fingerprints → LifecycleProgress → Option LifecyclePhase → EarlyReturn
  unfolding capture_effect attention_effect dossier_effect research_effect memory_effect
      portfolio_effect publication_effect
  early_return h p (some LifecyclePhase.capture_evidence) = capture_effect p c.evidence_capture
  early_return h p (some LifecyclePhase.select_attention) =
      attention_effect h p c.attention_selection
  early_return h p (some LifecyclePhase.build_dossiers) = dossier_effect p c.dossier_build
  early_return h p (some LifecyclePhase.run_research) = research_effect p c.research_run
  early_return h p (some LifecyclePhase.update_memory) = memory_effect p c.memory_update
  early_return h p (some LifecyclePhase.construct_portfolio) =
      portfolio_effect p c.portfolio_construction
  early_return h p (some LifecyclePhase.publish_decision) =
      publication_effect p c.decision_publication
  early_return h p _ = ok none
