-- ===== src/Tests/Extensions.antt =====
-- The theorems on streams of domain/lifecycle.py, at the events of one run.
use agentic_investment_os.Prelude.{◌≡◌, refl, true, ◌≤◌, none, some, [], ◌∷◌, ok, length}
use agentic_investment_os.Scheduler.Status.{is_hash}
use agentic_investment_os.Lifecycle.Reason.{AdvanceFailureReason}
use agentic_investment_os.Lifecycle.Checkpoint.{
  LifecyclePhase, EvidenceCaptureCheckpoint, evidence_capture_is_valid,
  decision_checkpoint_is_valid,
}
use agentic_investment_os.Lifecycle.Command.{AdvanceCommand, create_identity}
use agentic_investment_os.Lifecycle.Stream
use agentic_investment_os.Lifecycle.Stream.{
  LifecycleEvent, LifecycleProgress, Checkpoints, SequenceEntry, entry_at, IsGathered,
  reconstruct_stream, reconstruct_stream-IsGathered,
}
use agentic_investment_os.Lifecycle.Receipt.{AdvanceReceipt, failed_closed, failed_receipt_is_valid}
use agentic_investment_os.Lifecycle.Refusal.{DurableAdvanceRefusal, append_refusal}
use agentic_investment_os.Lifecycle.Completed.{AdvanceRecovery, CompletedReceipt}
use agentic_investment_os.Lifecycle.History.{
  LifecycleHistory, is_associated, is_complete, find_progress,
}
use agentic_investment_os.Lifecycle.Decision
use agentic_investment_os.Lifecycle.Decision.{
  AdvanceAttempt, append_event, refuse, return_completed, append_next_event,
}
use agentic_investment_os.Lifecycle.Decide.{decide_valid_advance}
use agentic_investment_os.Lifecycle.Extension.Streams.{extended, append-reconstructs}
use agentic_investment_os.Lifecycle.Extension.Phases.{reconstruct_stream-in_order}
use agentic_investment_os.Lifecycle.Extension.Start.{started, created-reconstructs}
use agentic_investment_os.Lifecycle.Extension.Refusals.{refusal-IsAssociated}
use agentic_investment_os.Lifecycle.Completion.Answered.{complete-answered}
use agentic_investment_os.Tests.Fixture.{monday, zeros}
use agentic_investment_os.Tests.Streams.{prints, cutoff, inputs, command}
use agentic_investment_os.Tests.Advances.{
  first, reconciled, pinned, snapshotted, capture, whole_run, final_progress,
  whole_run_reconstructed, snapshotted_progress, snapshotted_reconstructed, command_matches,
}

abbrev history : LifecycleHistory
history = record {
  events = [];
  refusals = [];
  conflicts = [];
  occupied_stream_ids = [];
  next_refusal_sequence = none;
}

abbrev resumed : AdvanceAttempt
resumed = record { recovery = none; last_sequence = none }

created-reconstructs_example : reconstruct_stream prints first [] ≡ ok (started command)
unfolding create_identity is_hash
created-reconstructs_example =
    created-reconstructs prints command cutoff zeros zeros zeros zeros inputs
      (record { content_hash = zeros; version = 1 }) refl refl refl

reconstruct_stream-in_order_example :
    (10 ≡ length whole_run)
    × (length (first ∷ whole_run) ≤ 11)
    × (s : SequenceEntry) × (entry_at 10 ≡ some s)
    × (some LifecyclePhase.publish_decision ≡ s.phase)
reconstruct_stream-in_order_example =
    reconstruct_stream-in_order prints first whole_run final_progress whole_run_reconstructed

reconstruct_stream-IsGathered_example :
    IsGathered prints final_progress.pinned_run_identity 11 final_progress.checkpoints
reconstruct_stream-IsGathered_example =
    reconstruct_stream-IsGathered prints first whole_run final_progress whole_run_reconstructed

-- The command after the evidence was captured
abbrev captured_command : AdvanceCommand
captured_command = record command { evidence_capture = some capture }

abbrev captured : LifecycleEvent
captured = record first {
  sequence = 4;
  event_kind = Stream.LifecycleEventKind.evidence_captured;
  completed_phase = some LifecyclePhase.capture_evidence;
  evidence_capture = some capture;
}

append-reconstructs_example :
    (checkpoints : Checkpoints) × (reconstruct_stream prints first
        (reconciled ∷ pinned ∷ snapshotted ∷ captured ∷ [])
      ≡ ok (extended snapshotted_progress captured checkpoints))
unfolding append_next_event Decision.append_at Decision.append_step Decision.append_checked
    Decision.append_plain Decision.early_return Decision.capture_effect Decision.next_event
    Decision.published_id Stream.snapshot_fits entry_at Decision.advance_matches_progress
append-reconstructs_example =
    append-reconstructs prints first (reconciled ∷ pinned ∷ snapshotted ∷ []) snapshotted_progress
      history captured_command AdvanceRecovery.resumed cutoff
      (append_event captured
        (record { recovery = some AdvanceRecovery.resumed; last_sequence = some 4 }))
      captured snapshotted_reconstructed command_matches.0 refl refl refl

abbrev partial : EvidenceCaptureCheckpoint
partial = record { policy_id = zeros; artifact_ids = []; refusal_ids = zeros ∷ [] }

abbrev partial_refusal : DurableAdvanceRefusal
partial_refusal = record {
  sequence = 1;
  idempotency_key = some "request-1";
  reason = AdvanceFailureReason.evidence_capture_failed;
  recorded_at = cutoff;
  cycle = some monday;
  evidence_capture = some partial;
  attention_refusal_reason = none;
  research_refusal = none;
  decision_publication_refusal = none;
}

abbrev partial_receipt : AdvanceReceipt
partial_receipt = record {
  failure_reason = AdvanceFailureReason.evidence_capture_failed;
  refused_cycle = some monday;
  evidence_policy_id = some zeros;
  evidence_artifact_ids = [];
  evidence_refusal_ids = zeros ∷ [];
  attention_refusal_reason = none;
  research_refusal_id = none;
}

refusal-IsAssociated_example : is_associated partial_refusal (some snapshotted_progress) ≡ true
unfolding append_next_event Decision.append_at Decision.append_step Decision.early_return
    Decision.capture_effect Decision.refuse_effect entry_at append_refusal failed_closed
    failed_receipt_is_valid is_hash is_complete
refusal-IsAssociated_example =
    refusal-IsAssociated prints first (reconciled ∷ pinned ∷ snapshotted ∷ []) snapshotted_progress
      history (record command { evidence_capture = some partial }) AdvanceRecovery.resumed cutoff
      partial_refusal partial_receipt snapshotted_reconstructed refl refl refl

complete-answered_example :
    (r : CompletedReceipt) × (decide_valid_advance prints history
        (final_progress ∷ [])
        command
        resumed
        cutoff
      ≡ ok (return_completed r))
    × (r.pinned_run_identity ≡ final_progress.pinned_run_identity)
    × (r.completed_phase ≡ some LifecyclePhase.publish_decision)
    × (r.decision_checkpoint ≡ final_progress.checkpoints.decision_checkpoint)
unfolding is_complete find_progress evidence_capture_is_valid decision_checkpoint_is_valid is_hash
complete-answered_example =
    complete-answered prints first whole_run final_progress history (final_progress ∷ []) command
      resumed cutoff whole_run_reconstructed refl refl command_matches.1 refl refl
