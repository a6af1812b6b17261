-- ===== src/Lifecycle/Decision/Event.antt =====
-- The event that `_append_next_event` of domain/lifecycle.py makes.
use agentic_investment_os.Prelude.{
  ℕ, Bool, true, false, Option, none, some, String, Result, ok, ◌>>=◌,
}
use agentic_investment_os.Temporal.{UtcInstant}
use agentic_investment_os.Lifecycle.Checkpoint.{
  LifecyclePhase, ResearchCheckpoint, DecisionCheckpoint,
}
use agentic_investment_os.Lifecycle.Command.{
  AttentionArtifact, AttentionSelection, ResearchOutcome, DecisionPublication, AdvanceCommand,
  Fingerprints, stream_id,
}
use agentic_investment_os.Lifecycle.Stream.{
  LifecycleEvent, LifecycleProgress, SequenceEntry, is_phase,
}
use agentic_investment_os.Lifecycle.Decision.Answer.{require}

-- `value if test else None`
abbrev pub only_if {ℓ} : {A : Type ℓ} → Bool → Option A → Option A
only_if true a = a
only_if false a = none

abbrev pub selected_artifact : Option AttentionSelection → Option AttentionArtifact
selected_artifact (some (AttentionSelection.selected a)) = some a
selected_artifact (some (AttentionSelection.not_selected r)) = none
selected_artifact none = none

abbrev pub done_checkpoint : Option ResearchOutcome → Option ResearchCheckpoint
done_checkpoint (some (ResearchOutcome.research_done r)) = some r
done_checkpoint (some (ResearchOutcome.research_refused r)) = none
done_checkpoint none = none

abbrev pub published_checkpoint : Option DecisionPublication → Option DecisionCheckpoint
published_checkpoint (some (DecisionPublication.published d)) = some d
published_checkpoint (some (DecisionPublication.not_published r)) = none
published_checkpoint none = none

abbrev pub research_of : AdvanceCommand → Option LifecyclePhase → Option ResearchCheckpoint
research_of c (some LifecyclePhase.build_dossiers) = done_checkpoint c.dossier_build
research_of c (some LifecyclePhase.run_research) = done_checkpoint c.research_run
research_of c (some LifecyclePhase.update_memory) = done_checkpoint c.memory_update
research_of c _ = none

unfoldable pub published_id : LifecycleProgress → Bool → Result (Option String)
published_id p false = ok none
published_id p true = do
  snapshot ← require p.checkpoints.universe_snapshot
  ok (some snapshot.snapshot_id)

unfoldable pub next_event :
    Fingerprints → AdvanceCommand → ℕ → SequenceEntry → UtcInstant → Option String → LifecycleEvent
next_event h c sequence s recorded_at published = record {
  stream_id = stream_id h c.request;
  sequence = sequence;
  request = c.request;
  pinned_run_identity = c.pinned_run_identity;
  event_kind = s.event_kind;
  completed_phase = s.phase;
  recorded_at = recorded_at;
  prepared_universe_snapshot = only_if s.prepares_snapshot (some c.universe_snapshot);
  published_universe_snapshot_id = published;
  evidence_capture = only_if (is_phase s.phase LifecyclePhase.capture_evidence) c.evidence_capture;
  attention_artifact =
      only_if (is_phase s.phase LifecyclePhase.select_attention)
        (selected_artifact c.attention_selection);
  research_checkpoint = research_of c s.phase;
  portfolio_checkpoint =
      only_if (is_phase s.phase LifecyclePhase.construct_portfolio) c.portfolio_construction;
  decision_checkpoint =
      only_if (is_phase s.phase LifecyclePhase.publish_decision)
        (published_checkpoint c.decision_publication);
  no_action_reason = only_if (is_phase s.phase LifecyclePhase.update_memory) c.no_action_reason;
}
