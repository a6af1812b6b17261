-- ===== src/Tests/Refusals.antt =====
-- Requests that were refused, and are made again.
use agentic_investment_os.Prelude.{◌≡◌, refl, none, some, [], ◌∷◌, ok}
use agentic_investment_os.Temporal.{UtcInstant}
use agentic_investment_os.Scheduler.Status.{is_hash}
use agentic_investment_os.Lifecycle.Reason.{
  AdvanceFailureReason, InputRefusalCode, is_input_failure_reason, input_failure_reason,
}
use agentic_investment_os.Lifecycle.Checkpoint.{EvidenceCaptureCheckpoint}
use agentic_investment_os.Lifecycle.Receipt.{AdvanceReceipt, failed_closed, failed_receipt_is_valid}
use agentic_investment_os.Lifecycle.Refusal.{
  InputRefusal, advance_command, input_refusal, DurableAdvanceRefusal, append_terminal,
  find_refusal, find_input_refusal, decide_terminal_refusal, append_refusal, append_bare_refusal,
}
use agentic_investment_os.Lifecycle.Replay.{advance_refusal_replayed, input_refusal_replayed}
use agentic_investment_os.Tests.Fixture.{monday, zeros}
use agentic_investment_os.Tests.Streams.{command}

abbrev noon : UtcInstant
noon = record { value = 43_200_000_000 }

abbrev capture : EvidenceCaptureCheckpoint
capture = record { policy_id = zeros; artifact_ids = []; refusal_ids = zeros ∷ [] }

abbrev capture_refusal : DurableAdvanceRefusal
capture_refusal = record {
  sequence = 1;
  idempotency_key = some "request-1";
  reason = AdvanceFailureReason.evidence_capture_failed;
  recorded_at = noon;
  cycle = some monday;
  evidence_capture = some capture;
  attention_refusal_reason = none;
  research_refusal = none;
  decision_publication_refusal = none;
}

abbrev capture_receipt : AdvanceReceipt
capture_receipt = record {
  failure_reason = AdvanceFailureReason.evidence_capture_failed;
  refused_cycle = some monday;
  evidence_policy_id = some zeros;
  evidence_artifact_ids = [];
  evidence_refusal_ids = zeros ∷ [];
  attention_refusal_reason = none;
  research_refusal_id = none;
}

capture_refused :
    append_refusal [] none
      (some "request-1")
      AdvanceFailureReason.evidence_capture_failed
      noon
      (some monday)
      (some capture)
      none
      none
      none
    ≡ ok (append_terminal capture_refusal capture_receipt)
unfolding append_refusal failed_closed failed_receipt_is_valid is_hash
capture_refused = refl

abbrev input : InputRefusal
input = record {
  code = InputRefusalCode.invalid_mode;
  idempotency_key = some "request-2";
  cycle = some monday;
}

abbrev mode_refusal : DurableAdvanceRefusal
mode_refusal = record {
  sequence = 2;
  idempotency_key = some "request-2";
  reason = AdvanceFailureReason.invalid_mode;
  recorded_at = noon;
  cycle = some monday;
  evidence_capture = none;
  attention_refusal_reason = none;
  research_refusal = none;
  decision_publication_refusal = none;
}

abbrev mode_receipt : AdvanceReceipt
mode_receipt = record {
  failure_reason = AdvanceFailureReason.invalid_mode;
  refused_cycle = some monday;
  evidence_policy_id = none;
  evidence_artifact_ids = [];
  evidence_refusal_ids = [];
  attention_refusal_reason = none;
  research_refusal_id = none;
}

mode_refused :
    append_bare_refusal
      (capture_refusal ∷ [])
      none
      (some "request-2")
      (input_failure_reason InputRefusalCode.invalid_mode)
      noon
      (some monday)
    ≡ ok (append_terminal mode_refusal mode_receipt)
unfolding append_refusal failed_closed failed_receipt_is_valid is_hash input_failure_reason
mode_refused = refl

-- A refusal of a later request
abbrev later_refusal : DurableAdvanceRefusal
later_refusal = record mode_refusal { sequence = 3; idempotency_key = some "request-3" }

advance_refusal_replayed_example :
    decide_terminal_refusal (capture_refusal ∷ mode_refusal ∷ []) (advance_command command)
    ≡ ok (some capture_receipt)
unfolding find_refusal is_input_failure_reason input_failure_reason
advance_refusal_replayed_example =
    advance_refusal_replayed [] none command AdvanceFailureReason.evidence_capture_failed noon
      (some capture) none none none capture_refusal capture_receipt (mode_refusal ∷ []) refl refl
      capture_refused

input_refusal_replayed_example :
    decide_terminal_refusal
      (capture_refusal ∷ mode_refusal ∷ later_refusal ∷ [])
      (input_refusal input)
    ≡ ok (some mode_receipt)
unfolding find_input_refusal
input_refusal_replayed_example =
    input_refusal_replayed (capture_refusal ∷ []) none input noon mode_refusal mode_receipt
      (later_refusal ∷ []) refl mode_refused
