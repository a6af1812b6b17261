-- ===== src/Tests/Loops.antt =====
-- The loop of `Advance`, with capabilities that answer at once, and keys that are used again.
use agentic_investment_os.Prelude.{◌≡◌, refl, true, none, some, [], ◌∷◌, Result, ok}
use agentic_investment_os.Scheduler.Status.{is_hash}
use agentic_investment_os.Lifecycle.Reason.{AdvanceFailureReason}
use agentic_investment_os.Lifecycle.Command.{ResearchOutcome, DecisionPublication}
use agentic_investment_os.Lifecycle.Receipt.{AdvanceReceipt, failed_closed, failed_receipt_is_valid}
use agentic_investment_os.Lifecycle.Refusal.{return_receipt}
use agentic_investment_os.Lifecycle.History.{
  LifecycleHistory, DurableAdvanceConflict, conflict_record, append, is_complete, find_progress,
  validate_conflicts, conflicts_from,
}
use agentic_investment_os.Lifecycle.Decision.{refuse, append_conflict}
use agentic_investment_os.Lifecycle.Decide.{
  find_conflict, answer_conflict, decide_idempotency_conflict,
}
use agentic_investment_os.Lifecycle.Conflicts.{conflict_then_replay, conflict-accepted}
use agentic_investment_os.Lifecycle.Application.{
  Capabilities, AttentionReading, AdvanceReport, LoopState, advance,
}
use agentic_investment_os.Lifecycle.Application.Termination.{advance_terminates}
use agentic_investment_os.Tests.Fixture.{monday}
use agentic_investment_os.Tests.Streams.{prints, cutoff, command}
use agentic_investment_os.Tests.Advances.{
  capture, artifact, research, portfolio, decision, final_progress,
}

abbrev history : LifecycleHistory
history = record {
  events = [];
  refusals = [];
  conflicts = [];
  occupied_stream_ids = [];
  next_refusal_sequence = none;
}

-- Attention reads nothing.
data Inputs : Type 0 where
  nothing : Inputs

abbrev capabilities : Capabilities Inputs
capabilities = record {
  evidence_capture = λ i s. ok capture;
  attention_inputs = λ i session s c. ok (AttentionReading.attention_read Inputs.nothing);
  select_attention = λ x prior at. some artifact;
  build_dossiers = λ c at. ok (record { checkpoint = research; refusal = none });
  run_research =
      λ c b at. ok (record { checkpoint = research; refusal = none; no_action_reason = none });
  update_memory = λ c r at. ok (ResearchOutcome.research_done research);
  replay_run = λ run d r reason.
      some (record { checkpoint = research; refusal = none; no_action_reason = none });
  construct_portfolio = λ c run d m at. ok portfolio;
  replay_publication = λ run session. none;
  publish_decision = λ i d r p reason.
      ok (record { outcome = DecisionPublication.published decision; recorded_at = cutoff });
  validate_receipt = λ c r. ok r;
}

abbrev start : LoopState
start = record {
  history = history;
  command = command;
  attempt = record { recovery = none; last_sequence = none };
  recorded_at = cutoff;
}

advance_terminates_example :
    (x : Result AdvanceReport) × (advance prints capabilities 19 start ≡ some x)
advance_terminates_example = advance_terminates prints capabilities start

abbrev used_again : DurableAdvanceConflict
used_again = record {
  idempotency_key = "request-1";
  reason = AdvanceFailureReason.idempotency_key_conflict;
}

abbrev conflict_receipt : AdvanceReceipt
conflict_receipt = record {
  failure_reason = AdvanceFailureReason.idempotency_key_conflict;
  refused_cycle = some monday;
  evidence_policy_id = none;
  evidence_artifact_ids = [];
  evidence_refusal_ids = [];
  attention_refusal_reason = none;
  research_refusal_id = none;
}

conflict_decided :
    decide_idempotency_conflict history final_progress "request-1" (some monday) cutoff
    ≡ ok (append_conflict used_again conflict_receipt)
unfolding decide_idempotency_conflict find_conflict answer_conflict is_complete failed_closed
    failed_receipt_is_valid is_hash
conflict_decided = refl

-- A conflict of another key
abbrev later_conflict : DurableAdvanceConflict
later_conflict = record used_again { idempotency_key = "request-2" }

abbrev later_history : LifecycleHistory
later_history =
    append (append history (conflict_record used_again)) (conflict_record later_conflict)

conflict_then_replay_example :
    decide_idempotency_conflict later_history final_progress "request-1"
      (some monday)
      (record { value = 50_000_000_000 })
    ≡ ok (refuse (return_receipt conflict_receipt))
unfolding append
conflict_then_replay_example =
    conflict_then_replay history later_history final_progress "request-1" (some monday) cutoff
      (record { value = 50_000_000_000 }) used_again conflict_receipt (later_conflict ∷ [])
      conflict_decided refl

conflict-accepted_example :
    validate_conflicts (append history (conflict_record used_again)).conflicts (final_progress ∷ [])
    ≡ true
unfolding validate_conflicts conflicts_from find_progress
conflict-accepted_example =
    conflict-accepted history (final_progress ∷ []) final_progress "request-1" (some monday) cutoff
      used_again conflict_receipt refl refl conflict_decided
