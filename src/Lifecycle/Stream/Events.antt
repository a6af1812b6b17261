-- ===== src/Lifecycle/Stream/Events.antt =====
-- `LifecycleEvent` and `LifecycleProgress` of domain/lifecycle.py, and the checkpoints that
-- `_reconstruct_stream` gathers in its local variables, as one record.
use agentic_investment_os.Prelude.{
  ℕ, Bool, true, false, ◌&&◌, not, Option, none, some, String, if◌then◌else◌,
}
use agentic_investment_os.Temporal.{UtcInstant}
use agentic_investment_os.Lifecycle.Checkpoint.{
  LifecyclePhase, NoActionReason, EvidenceCaptureCheckpoint, ResearchCheckpoint, DecisionCheckpoint,
}
use agentic_investment_os.Lifecycle.Portfolio.{PortfolioCheckpoint}
use agentic_investment_os.Lifecycle.Command.{
  AdvanceRequest, PinnedRunIdentity, UniverseSnapshot, AttentionArtifact,
}
use agentic_investment_os.Lifecycle.Stream.Order.{LifecycleEventKind, SequenceEntry, is_phase}

pub record LifecycleEvent : Type 0 where
  pub stream_id : String
  pub sequence : ℕ
  pub request : AdvanceRequest
  pub pinned_run_identity : PinnedRunIdentity
  pub event_kind : LifecycleEventKind
  pub completed_phase : Option LifecyclePhase
  pub recorded_at : UtcInstant
  pub prepared_universe_snapshot : Option UniverseSnapshot
  pub published_universe_snapshot_id : Option String
  pub evidence_capture : Option EvidenceCaptureCheckpoint
  pub attention_artifact : Option AttentionArtifact
  pub research_checkpoint : Option ResearchCheckpoint
  pub portfolio_checkpoint : Option PortfolioCheckpoint
  pub decision_checkpoint : Option DecisionCheckpoint
  pub no_action_reason : Option NoActionReason

-- The local variables of the loop
pub record Checkpoints : Type 0 where
  pub universe_snapshot : Option UniverseSnapshot
  pub evidence_capture : Option EvidenceCaptureCheckpoint
  pub attention_artifact : Option AttentionArtifact
  pub dossier_checkpoint : Option ResearchCheckpoint
  pub research_checkpoint : Option ResearchCheckpoint
  pub memory_checkpoint : Option ResearchCheckpoint
  pub portfolio_checkpoint : Option PortfolioCheckpoint
  pub decision_checkpoint : Option DecisionCheckpoint
  pub no_action_reason : Option NoActionReason

pub record LifecycleProgress : Type 0 where
  pub request : AdvanceRequest
  pub pinned_run_identity : PinnedRunIdentity
  pub completed_phase : Option LifecyclePhase
  pub sequence : ℕ
  pub checkpoints : Checkpoints

abbrev pub no_checkpoints : Checkpoints
no_checkpoints = record {
  universe_snapshot = none;
  evidence_capture = none;
  attention_artifact = none;
  dossier_checkpoint = none;
  research_checkpoint = none;
  memory_checkpoint = none;
  portfolio_checkpoint = none;
  decision_checkpoint = none;
  no_action_reason = none;
}

abbrev pub or_else {ℓ} : {A : Type ℓ} → Option A → Option A → Option A
or_else none b = b
or_else (some a) b = some a

abbrev pub present {ℓ} : {A : Type ℓ} → Option A → Bool
present none = false
present (some a) = true

abbrev pub when_phase {ℓ} : {A : Type ℓ} → Bool → Option A → Option A → Option A
when_phase true a b = or_else a b
when_phase false a b = b

-- `is` on two Booleans
abbrev pub same : Bool → Bool → Bool
same true b = b
same false b = not b

-- The assignments of the loop's body
unfoldable pub observe : SequenceEntry → LifecycleEvent → Checkpoints → Checkpoints
observe s e c = record {
  universe_snapshot = or_else e.prepared_universe_snapshot c.universe_snapshot;
  evidence_capture = or_else e.evidence_capture c.evidence_capture;
  attention_artifact = or_else e.attention_artifact c.attention_artifact;
  dossier_checkpoint =
      when_phase (is_phase s.phase LifecyclePhase.build_dossiers) e.research_checkpoint
        c.dossier_checkpoint;
  research_checkpoint =
      when_phase (is_phase s.phase LifecyclePhase.run_research) e.research_checkpoint
        c.research_checkpoint;
  memory_checkpoint =
      when_phase (is_phase s.phase LifecyclePhase.update_memory) e.research_checkpoint
        c.memory_checkpoint;
  portfolio_checkpoint = or_else e.portfolio_checkpoint c.portfolio_checkpoint;
  decision_checkpoint = or_else e.decision_checkpoint c.decision_checkpoint;
  no_action_reason =
      if is_phase s.phase LifecyclePhase.update_memory && present e.research_checkpoint
      then e.no_action_reason
      else c.no_action_reason;
}
