-- ===== src/Tests/Advances.antt =====
-- The streams of one run, event by event, and the theorems on streams at them.
use native.Mathlib.Decide.{ℕ_discrete}
use agentic_investment_os.Prelude.{
  equal, String-discrete, ℕ, ◌≡◌, refl, true, none, some, List, [], ◌∷◌, ok,
}
use agentic_investment_os.Scheduler.Status.{is_hash}
use agentic_investment_os.Lifecycle.Checkpoint.{
  LifecyclePhase, EvidenceCaptureCheckpoint, ResearchCheckpoint, DecisionCheckpoint,
  PortfolioShadowKind, PortfolioShadowReference, NoActionReason,
}
use agentic_investment_os.Lifecycle.Portfolio.{PortfolioCheckpoint}
use agentic_investment_os.Lifecycle.Command.{AttentionArtifact, AdvanceCommand, create_identity}
use agentic_investment_os.Lifecycle.Command
use agentic_investment_os.Lifecycle.Decision
use agentic_investment_os.Lifecycle.Stream
use agentic_investment_os.Lifecycle.Stream.{
  LifecycleEvent, LifecycleEventKind, LifecycleProgress, Checkpoints, no_checkpoints,
  reconstruct_stream,
}
use agentic_investment_os.Lifecycle.Decide.{first_event}
use agentic_investment_os.Tests.Fixture.{monday, zeros}
use agentic_investment_os.Tests.Streams.{prints, cutoff, request, identity, snapshot, command}

abbrev pub first : LifecycleEvent
first = first_event prints command cutoff

abbrev event : ℕ → LifecycleEventKind → LifecyclePhase → LifecycleEvent
event n kind phase = record first { sequence = n; event_kind = kind; completed_phase = some phase }

abbrev pub reconciled : LifecycleEvent
reconciled = event 1 LifecycleEventKind.phase_completed LifecyclePhase.reconcile_prior_state

abbrev pub pinned : LifecycleEvent
pinned = record (event 2 LifecycleEventKind.run_inputs_pinned LifecyclePhase.pin_run_inputs) {
  prepared_universe_snapshot = some snapshot;
}

abbrev pub snapshotted : LifecycleEvent
snapshotted =
    record (event 3 LifecycleEventKind.universe_snapshotted LifecyclePhase.snapshot_universe) {
      published_universe_snapshot_id = some "snapshot";
    }

abbrev pub capture : EvidenceCaptureCheckpoint
capture = record { policy_id = zeros; artifact_ids = zeros ∷ []; refusal_ids = [] }

abbrev pub artifact : AttentionArtifact
artifact = record {
  artifact_id = "artifact";
  run_id = zeros;
  cycle = monday;
  universe_snapshot_id = "snapshot";
  cutoff = cutoff;
  available_at = cutoff;
  data_regime = "live";
  evidence_policy_id = zeros;
  evidence_artifact_ids = zeros ∷ [];
  history_fingerprint = "history";
  selection = "";
}

abbrev pub research : ResearchCheckpoint
research = record {
  artifact_ids = zeros ∷ [];
  call_ids = [];
  input_tokens = 0;
  output_tokens = 0;
  turns = 0;
}

abbrev account : PortfolioShadowKind → PortfolioShadowReference
account kind = record { account_kind = kind; account_id = zeros }

abbrev pub portfolio : PortfolioCheckpoint
portfolio = record {
  result_id = zeros;
  house_view_id = some zeros;
  policy_id = zeros;
  input_id = zeros;
  target_band_ids = [];
  recorded_at = cutoff;
  refusal_reason = none;
  shadow_accounts = account PortfolioShadowKind.conservative ∷ [];
}

abbrev pub decision : DecisionCheckpoint
decision = record {
  decision_record_id = zeros;
  packet_id = none;
  packet_expires_at = none;
  recorded_at = cutoff;
  no_action_reason = some NoActionReason.no_authorized_adjustments;
}

-- The events of the whole run after the first
abbrev pub whole_run : List LifecycleEvent
whole_run =
    reconciled
    ∷ pinned
    ∷ snapshotted
    ∷ record (event 4 LifecycleEventKind.evidence_captured LifecyclePhase.capture_evidence) {
      evidence_capture = some capture;
    }
    ∷ record (event 5 LifecycleEventKind.attention_selected LifecyclePhase.select_attention) {
      attention_artifact = some artifact;
    }
    ∷ record (event 6 LifecycleEventKind.dossiers_built LifecyclePhase.build_dossiers) {
      research_checkpoint = some research;
    }
    ∷ record (event 7 LifecycleEventKind.research_run LifecyclePhase.run_research) {
      research_checkpoint = some research;
    }
    ∷ record (event 8 LifecycleEventKind.memory_updated LifecyclePhase.update_memory) {
      research_checkpoint = some research;
    }
    ∷ record (event 9 LifecycleEventKind.portfolio_constructed LifecyclePhase.construct_portfolio) {
      portfolio_checkpoint = some portfolio;
    }
    ∷ record (event 10 LifecycleEventKind.decision_published LifecyclePhase.publish_decision) {
      decision_checkpoint = some decision;
    }
    ∷ []

abbrev pub final_checkpoints : Checkpoints
final_checkpoints = record {
  universe_snapshot = some snapshot;
  evidence_capture = some capture;
  attention_artifact = some artifact;
  dossier_checkpoint = some research;
  research_checkpoint = some research;
  memory_checkpoint = some research;
  portfolio_checkpoint = some portfolio;
  decision_checkpoint = some decision;
  no_action_reason = none;
}

abbrev pub final_progress : LifecycleProgress
final_progress = record {
  request = request;
  pinned_run_identity = identity;
  completed_phase = some LifecyclePhase.publish_decision;
  sequence = 10;
  checkpoints = final_checkpoints;
}

pub whole_run_reconstructed : reconstruct_stream prints first whole_run ≡ ok final_progress
unfolding reconstruct_stream Stream.check_events Stream.check_event Stream.entry_at
    Stream.identity_is_valid Stream.is_pinned Stream.shape_is_valid Stream.facts_are_consistent
    Stream.observe Stream.snapshot_fits Stream.artifact_fits Stream.portfolio_fits
    Stream.decision_fits is_hash Command.same_request Command.AdvanceRequest-discrete
    Command.same_identity Command.PinnedRunIdentity-discrete equal ℕ_discrete String-discrete
whole_run_reconstructed = refl

-- The stream whose evidence is captured next
abbrev pub snapshotted_progress : LifecycleProgress
snapshotted_progress = record final_progress {
  completed_phase = some LifecyclePhase.snapshot_universe;
  sequence = 3;
  checkpoints = record no_checkpoints { universe_snapshot = some snapshot };
}

pub snapshotted_reconstructed :
    reconstruct_stream prints first (reconciled ∷ pinned ∷ snapshotted ∷ [])
    ≡ ok snapshotted_progress
unfolding reconstruct_stream Stream.check_events Stream.check_event Stream.entry_at
    Stream.identity_is_valid Stream.is_pinned Stream.shape_is_valid Stream.facts_are_consistent
    Stream.observe Stream.snapshot_fits Stream.artifact_fits Stream.portfolio_fits
    Stream.decision_fits is_hash Command.same_request Command.AdvanceRequest-discrete
    Command.same_identity Command.PinnedRunIdentity-discrete equal ℕ_discrete String-discrete
snapshotted_reconstructed = refl

pub command_matches :
    (Decision.advance_matches_progress snapshotted_progress command ≡ true)
    × (Decision.advance_matches_progress final_progress command ≡ true)
unfolding Decision.advance_matches_progress Command.same_request Command.AdvanceRequest-discrete
    Command.same_identity Command.PinnedRunIdentity-discrete equal ℕ_discrete String-discrete
command_matches = (refl, refl)
