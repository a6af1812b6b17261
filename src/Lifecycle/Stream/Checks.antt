-- ===== src/Lifecycle/Stream/Checks.antt =====
-- What `_reconstruct_stream` of domain/lifecycle.py checks of an event. Each check raises the same
-- exception, so the checks of one event are tests; they read the checkpoints with those of the event,
-- as the source does by assigning them first.
use agentic_investment_os.Prelude.{
  Bool, true, false, ◌&&◌, ◌||◌, not, Option, none, some, List, [], ◌∷◌, String, str_eq, ◌==◌, leb,
}
use agentic_investment_os.Temporal.{UtcInstant}
use agentic_investment_os.Scheduler.Host.{same_cycle}
use agentic_investment_os.Lifecycle.Checkpoint.{
  LifecyclePhase, EvidenceCaptureCheckpoint, ResearchCheckpoint, DecisionCheckpoint, empty,
  is_complete_capture,
}
use agentic_investment_os.Lifecycle.Portfolio.{PortfolioCheckpoint, is_refused}
use agentic_investment_os.Lifecycle.Command.{
  PinnedRunIdentity, UniverseSnapshot, AttentionArtifact, Fingerprints, same_request, same_identity,
}
use agentic_investment_os.Lifecycle.Stream.Order.{SequenceEntry, same_kind, same_phase, is_phase}
use agentic_investment_os.Lifecycle.Stream.Events.{LifecycleEvent, Checkpoints, present, same}

-- A snapshot has the facts that are pinned.
unfoldable pub snapshot_fits : PinnedRunIdentity → UniverseSnapshot → Bool
snapshot_fits i s =
    str_eq s.run_id i.run_id
    && str_eq s.inputs.data_regime i.data_regime
    && s.inputs.evidence_cutoff.value == i.evidence_cutoff.value
    && same_cycle s.cycle i.cycle
    && str_eq s.inputs.instrument_snapshot_hash i.instrument_snapshot_hash
    && str_eq s.inputs.position_snapshot_hash i.position_snapshot_hash
    && str_eq s.inputs.eligibility_policy_hash i.eligibility_policy_hash

abbrev pub snapshot_is_consistent : PinnedRunIdentity → Option UniverseSnapshot → Bool
snapshot_is_consistent i none = true
snapshot_is_consistent i (some s) = snapshot_fits i s

abbrev pub publication_is_consistent : Option String → Option UniverseSnapshot → Bool
publication_is_consistent none prepared = true
publication_is_consistent (some s) none = false
publication_is_consistent (some s) (some snapshot) = str_eq s snapshot.snapshot_id

abbrev pub capture_is_consistent : Option EvidenceCaptureCheckpoint → Bool
capture_is_consistent none = true
capture_is_consistent (some c) = is_complete_capture c

abbrev pub same_texts : List String → List String → Bool
same_texts [] [] = true
same_texts (s ∷ ss) (t ∷ ts) = str_eq s t && same_texts ss ts
same_texts _ _ = false

-- An artifact is bound to the run, the prepared snapshot and the captured evidence.
unfoldable pub artifact_fits :
    Fingerprints
    → PinnedRunIdentity
    → UniverseSnapshot
    → EvidenceCaptureCheckpoint
    → AttentionArtifact
    → Bool
artifact_fits h i snapshot capture a =
    str_eq a.run_id i.run_id
    && same_cycle a.cycle i.cycle
    && str_eq a.universe_snapshot_id snapshot.snapshot_id
    && a.cutoff.value == i.evidence_cutoff.value
    && str_eq a.data_regime i.data_regime
    && str_eq a.evidence_policy_id capture.policy_id
    && same_texts a.evidence_artifact_ids capture.artifact_ids
    && h.is_canonical a

abbrev pub artifact_is_consistent :
    Fingerprints
    → PinnedRunIdentity
    → Option UniverseSnapshot
    → Option EvidenceCaptureCheckpoint
    → Option AttentionArtifact
    → Bool
artifact_is_consistent h i snapshot capture none = true
artifact_is_consistent h i (some s) (some c) (some a) = artifact_fits h i s c a
artifact_is_consistent h i _ _ (some a) = false

unfoldable pub portfolio_fits : PinnedRunIdentity → UtcInstant → PortfolioCheckpoint → Bool
portfolio_fits i at p =
    str_eq p.policy_id i.portfolio_policy_hash
    && str_eq p.input_id i.portfolio_input_hash
    && leb i.evidence_cutoff.value p.recorded_at.value
    && leb p.recorded_at.value at.value

abbrev pub portfolio_is_consistent :
    PinnedRunIdentity → UtcInstant → Option PortfolioCheckpoint → Bool
portfolio_is_consistent i at none = true
portfolio_is_consistent i at (some p) = portfolio_fits i at p

unfoldable pub decision_fits : UtcInstant → PortfolioCheckpoint → DecisionCheckpoint → Bool
decision_fits at p d =
    not (is_refused p)
    && leb p.recorded_at.value d.recorded_at.value
    && leb d.recorded_at.value at.value

abbrev pub decision_is_consistent :
    UtcInstant → Option PortfolioCheckpoint → Option DecisionCheckpoint → Bool
decision_is_consistent at portfolio none = true
decision_is_consistent at none (some d) = false
decision_is_consistent at (some p) (some d) = decision_fits at p d

abbrev pub no_artifacts : Option ResearchCheckpoint → Bool
no_artifacts none = false
no_artifacts (some c) = empty c.artifact_ids

-- The event stands where it should, with the kinds of fact that its phase has, and no other.
unfoldable pub shape_is_valid : LifecycleEvent → SequenceEntry → Bool
shape_is_valid e s =
    same_kind e.event_kind s.event_kind
    && same_phase e.completed_phase s.phase
    && same (present e.prepared_universe_snapshot) s.prepares_snapshot
    && same (present e.published_universe_snapshot_id) s.publishes_snapshot
    && same (present e.evidence_capture) (is_phase s.phase LifecyclePhase.capture_evidence)
    && same (present e.attention_artifact) (is_phase s.phase LifecyclePhase.select_attention)
    && same (present e.research_checkpoint) (
        is_phase s.phase LifecyclePhase.build_dossiers
        || is_phase s.phase LifecyclePhase.run_research
        || is_phase s.phase LifecyclePhase.update_memory)
    && same (present e.portfolio_checkpoint) (is_phase s.phase LifecyclePhase.construct_portfolio)
    && same (present e.decision_checkpoint) (is_phase s.phase LifecyclePhase.publish_decision)
    && same (present e.no_action_reason)
        (is_phase s.phase LifecyclePhase.update_memory && no_artifacts e.research_checkpoint)

-- Its facts agree with what is pinned, and with the checkpoints `c` so far, its own included.
unfoldable pub facts_are_consistent :
    Fingerprints → PinnedRunIdentity → LifecycleEvent → Checkpoints → Bool
facts_are_consistent h i e c =
    snapshot_is_consistent i e.prepared_universe_snapshot
    && publication_is_consistent e.published_universe_snapshot_id c.universe_snapshot
    && capture_is_consistent e.evidence_capture
    && artifact_is_consistent h i c.universe_snapshot c.evidence_capture e.attention_artifact
    && portfolio_is_consistent i e.recorded_at e.portfolio_checkpoint
    && decision_is_consistent e.recorded_at c.portfolio_checkpoint e.decision_checkpoint

-- The stream, the request and the identity are those of the first event.
unfoldable pub is_pinned : LifecycleEvent → LifecycleEvent → Bool
is_pinned first e =
    str_eq e.stream_id first.stream_id
    && same_request e.request first.request
    && same_identity e.pinned_run_identity first.pinned_run_identity
