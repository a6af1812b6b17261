-- ===== src/Lifecycle/Completed.antt =====
-- Receipts of completed runs, of domain/lifecycle.py, with the fields that such a receipt may have.
use agentic_investment_os.Prelude.{
  Bool, true, false, ◌&&◌, ◌||◌, not, Option, none, some, List, String, str_eq, is_none, ◌==◌, leb,
  Result, ok, err, invalid_advanced_receipt, if◌then◌else◌,
}
use agentic_investment_os.Temporal.{UtcInstant}
use agentic_investment_os.Scheduler.Status.{is_hash}
use agentic_investment_os.Scheduler.Host.{same_cycle}
use agentic_investment_os.Lifecycle.Checkpoint.{
  LifecyclePhase, NoActionReason, EvidenceCaptureCheckpoint, ResearchCheckpoint, DecisionCheckpoint,
  empty, valid_hash_references,
}
use agentic_investment_os.Lifecycle.Portfolio.{PortfolioCheckpoint, is_refused}
use agentic_investment_os.Lifecycle.Command.{
  PinnedRunIdentity, UniverseSnapshot, AttentionArtifact, Fingerprints,
}
use agentic_investment_os.Lifecycle.Stream.{is_phase, same_texts}

pub data AdvanceRecovery : Type 0 where
  fresh resumed previously_completed : AdvanceRecovery

-- `AdvanceDisposition` of a completed run
pub data CompletedDisposition : Type 0 where
  advanced no_action : CompletedDisposition

-- An `AdvanceReceipt` whose disposition is `advanced` or `no_action`: its failure reason, its refused
-- cycle, and its refusals of attention and research are none.
pub record CompletedReceipt : Type 0 where
  pub disposition : CompletedDisposition
  pub completed_phase : Option LifecyclePhase
  pub pinned_run_identity : PinnedRunIdentity
  pub recovery : AdvanceRecovery
  pub universe_snapshot_id : String
  pub recorded_at : UtcInstant
  pub evidence_policy_id : String
  pub evidence_artifact_ids : List String
  pub evidence_refusal_ids : List String
  pub attention_artifact : AttentionArtifact
  pub dossier_checkpoint : ResearchCheckpoint
  pub research_checkpoint : ResearchCheckpoint
  pub memory_checkpoint : ResearchCheckpoint
  pub portfolio_checkpoint : PortfolioCheckpoint
  pub decision_checkpoint : Option DecisionCheckpoint
  pub no_action_reason : Option NoActionReason

-- `decision is not None and decision.packet_id is not None`
abbrev pub has_packet : Option DecisionCheckpoint → Bool
has_packet none = false
has_packet (some d) = not (is_none d.packet_id)

abbrev pub is_abstention : Option DecisionCheckpoint → Bool
is_abstention none = false
is_abstention (some d) = is_none d.packet_id

abbrev decided_by : UtcInstant → Option DecisionCheckpoint → Bool
decided_by at none = true
decided_by at (some d) = leb d.recorded_at.value at.value

abbrev pub last_phase : Bool → LifecyclePhase
last_phase true = LifecyclePhase.construct_portfolio
last_phase false = LifecyclePhase.publish_decision

-- The attention artifact is bound to the identity, the snapshot and the evidence of the receipt.
unfoldable pub attention_is_bound : Fingerprints → CompletedReceipt → Bool
attention_is_bound h r =
    let a = r.attention_artifact in
    let i = r.pinned_run_identity in
    str_eq a.run_id i.run_id
    && same_cycle a.cycle i.cycle
    && str_eq a.universe_snapshot_id r.universe_snapshot_id
    && a.cutoff.value == i.evidence_cutoff.value
    && leb a.available_at.value r.recorded_at.value
    && str_eq a.data_regime i.data_regime
    && str_eq a.evidence_policy_id r.evidence_policy_id
    && same_texts a.evidence_artifact_ids r.evidence_artifact_ids
    && h.is_canonical a

-- The decision that the portfolio's outcome has: none if it was refused.
unfoldable pub decision_is_bound : CompletedReceipt → Bool
decision_is_bound r =
    if is_refused r.portfolio_checkpoint
    then is_none r.decision_checkpoint
    else not (is_none r.decision_checkpoint)

unfoldable pub disposition_is_valid : CompletedReceipt → CompletedDisposition → Bool
disposition_is_valid r CompletedDisposition.advanced =
    not (empty r.memory_checkpoint.artifact_ids)
    && is_none r.no_action_reason
    && not (is_refused r.portfolio_checkpoint)
    && has_packet r.decision_checkpoint
disposition_is_valid r CompletedDisposition.no_action =
    (empty r.memory_checkpoint.artifact_ids
      && not (is_none r.no_action_reason)
      && not (is_refused r.portfolio_checkpoint))
    || is_refused r.portfolio_checkpoint
    || is_abstention r.decision_checkpoint

-- `AdvanceReceipt.__post_init__` of such a receipt; that a refused portfolio is no advance is in the
-- test of the disposition.
unfoldable pub completed_receipt_is_valid : Fingerprints → CompletedReceipt → Bool
unfolding attention_is_bound decision_is_bound disposition_is_valid
completed_receipt_is_valid h r =
    is_phase r.completed_phase (last_phase (is_refused r.portfolio_checkpoint))
    && leb r.pinned_run_identity.evidence_cutoff.value r.recorded_at.value
    && is_hash r.evidence_policy_id
    && not (empty r.evidence_artifact_ids)
    && empty r.evidence_refusal_ids
    && valid_hash_references r.evidence_artifact_ids
    && attention_is_bound h r
    && decision_is_bound r
    && decided_by r.recorded_at r.decision_checkpoint
    && str_eq r.portfolio_checkpoint.policy_id r.pinned_run_identity.portfolio_policy_hash
    && str_eq r.portfolio_checkpoint.input_id r.pinned_run_identity.portfolio_input_hash
    && disposition_is_valid r r.disposition

-- The disposition that `AdvanceReceipt.advanced` reports
unfoldable pub disposition_of :
    Option NoActionReason → PortfolioCheckpoint → Option DecisionCheckpoint → CompletedDisposition
disposition_of reason portfolio decision =
    if is_none reason && not (is_refused portfolio) && has_packet decision
    then CompletedDisposition.advanced
    else CompletedDisposition.no_action

unfoldable pub advanced_receipt :
    PinnedRunIdentity
    → UniverseSnapshot
    → AdvanceRecovery
    → UtcInstant
    → EvidenceCaptureCheckpoint
    → AttentionArtifact
    → ResearchCheckpoint
    → ResearchCheckpoint
    → ResearchCheckpoint
    → PortfolioCheckpoint
    → Option DecisionCheckpoint
    → Option NoActionReason
    → CompletedReceipt
unfolding disposition_of
advanced_receipt identity snapshot recovery recorded_at evidence attention dossier research memory
      portfolio decision reason =
    record {
      disposition = disposition_of reason portfolio decision;
      completed_phase = some (last_phase (is_refused portfolio));
      pinned_run_identity = identity;
      recovery = recovery;
      universe_snapshot_id = snapshot.snapshot_id;
      recorded_at = recorded_at;
      evidence_policy_id = evidence.policy_id;
      evidence_artifact_ids = evidence.artifact_ids;
      evidence_refusal_ids = evidence.refusal_ids;
      attention_artifact = attention;
      dossier_checkpoint = dossier;
      research_checkpoint = research;
      memory_checkpoint = memory;
      portfolio_checkpoint = portfolio;
      decision_checkpoint = decision;
      no_action_reason = reason;
    }

-- `AdvanceReceipt.advanced`: the receipt, if its constructor admits it
unfoldable pub admit_receipt : Fingerprints → CompletedReceipt → Result CompletedReceipt
admit_receipt h r = if completed_receipt_is_valid h r then ok r else err invalid_advanced_receipt
