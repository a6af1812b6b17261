-- ===== src/Lifecycle/Receipt.antt =====
-- Receipts that fail closed, of domain/lifecycle.py, with the fields that such a receipt may have.
use agentic_investment_os.Prelude.{
  Bool, true, false, ◌&&◌, ◌||◌, not, Option, none, some, List, [], String, is_none, Result, ok,
  err, invalid_receipt, if◌then◌else◌,
}
use agentic_investment_os.Scheduler.Policy.{MarketSession}
use agentic_investment_os.Scheduler.Status.{is_hash}
use agentic_investment_os.Lifecycle.Checkpoint.{
  EvidenceCaptureCheckpoint, ResearchRefusal, empty, valid_hash_references,
}
use agentic_investment_os.Lifecycle.Reason.{
  AdvanceFailureReason, AttentionRefusalReason, same_reason,
}

-- A receipt whose disposition is `failed_closed`; all its other fields are none or empty.
pub record AdvanceReceipt : Type 0 where
  pub failure_reason : AdvanceFailureReason
  pub refused_cycle : Option MarketSession
  pub evidence_policy_id : Option String
  pub evidence_artifact_ids : List String
  pub evidence_refusal_ids : List String
  pub attention_refusal_reason : Option AttentionRefusalReason
  pub research_refusal_id : Option String

abbrev is_hash? : Option String → Bool
is_hash? none = false
is_hash? (some s) = is_hash s

abbrev differ : Bool → Bool → Bool
differ true b = not b
differ false b = b

abbrev is_attention : AdvanceFailureReason → Bool
is_attention r = same_reason r AdvanceFailureReason.attention_selection_failed

abbrev is_capture : AdvanceFailureReason → Bool
is_capture r = same_reason r AdvanceFailureReason.evidence_capture_failed

abbrev is_research : AdvanceFailureReason → Bool
is_research r =
    same_reason r AdvanceFailureReason.research_failed
    || same_reason r AdvanceFailureReason.memory_update_failed

-- `AdvanceReceipt.__post_init__` of a receipt that failed closed, for the cycles of market sessions
unfoldable pub failed_receipt_is_valid : AdvanceReceipt → Bool
failed_receipt_is_valid r = not (
    differ (is_research r.failure_reason) (is_hash? r.research_refusal_id)
    || (is_capture r.failure_reason
        && (not (is_hash? r.evidence_policy_id)
            || empty r.evidence_refusal_ids
            || not (valid_hash_references r.evidence_artifact_ids)
            || not (valid_hash_references r.evidence_refusal_ids)
            || is_none r.refused_cycle))
    || (not (is_capture r.failure_reason || is_attention r.failure_reason)
        && (not (is_none r.evidence_policy_id)
            || not (empty r.evidence_artifact_ids)
            || not (empty r.evidence_refusal_ids)))
    || (is_attention r.failure_reason
        && (not (is_hash? r.evidence_policy_id)
            || empty r.evidence_artifact_ids
            || not (empty r.evidence_refusal_ids)
            || is_none r.refused_cycle
            || is_none r.attention_refusal_reason))
    || differ (is_attention r.failure_reason) (not (is_none r.attention_refusal_reason))
    || same_reason r.failure_reason AdvanceFailureReason.unsupported_cycle)

abbrev policy_id_of : Option EvidenceCaptureCheckpoint → Option String
policy_id_of none = none
policy_id_of (some e) = some e.policy_id

abbrev artifact_ids_of : Option EvidenceCaptureCheckpoint → List String
artifact_ids_of none = []
artifact_ids_of (some e) = e.artifact_ids

abbrev refusal_ids_of : Option EvidenceCaptureCheckpoint → List String
refusal_ids_of none = []
refusal_ids_of (some e) = e.refusal_ids

abbrev refusal_id_of : Option ResearchRefusal → Option String
refusal_id_of none = none
refusal_id_of (some r) = some r.refusal_id

-- `AdvanceReceipt.failed_closed`
unfoldable pub failed_closed :
    AdvanceFailureReason
    → Option MarketSession
    → Option EvidenceCaptureCheckpoint
    → Option AttentionRefusalReason
    → Option ResearchRefusal
    → Result AdvanceReceipt
failed_closed reason cycle evidence attention research =
    let receipt : AdvanceReceipt = record {
      failure_reason = reason;
      refused_cycle = cycle;
      evidence_policy_id = policy_id_of evidence;
      evidence_artifact_ids = artifact_ids_of evidence;
      evidence_refusal_ids = refusal_ids_of evidence;
      attention_refusal_reason = attention;
      research_refusal_id = refusal_id_of research;
    } in
    if failed_receipt_is_valid receipt then ok receipt else err invalid_receipt
