-- ===== src/Lifecycle/Completion/Admission.antt =====
-- Receipts of completed runs that their constructor in domain/lifecycle.py admits.
use agentic_investment_os.Prelude.{
  ◌≡◌, str_eq, Bool, true, ◌&&◌, Option, none, some, ok, arith, leb, is_none,
}
use agentic_investment_os.Temporal.{UtcInstant}
use agentic_investment_os.Lifecycle.Checkpoint.{
  NoActionReason, EvidenceCaptureCheckpoint, ResearchCheckpoint, DecisionCheckpoint,
  evidence_capture_is_valid, decision_checkpoint_is_valid, is_complete_capture,
}
use agentic_investment_os.Lifecycle.Portfolio.{PortfolioCheckpoint, is_refused}
use agentic_investment_os.Lifecycle.Command.{
  PinnedRunIdentity, UniverseSnapshot, AttentionArtifact, Fingerprints,
}
use agentic_investment_os.Lifecycle.Stream.{
  LifecycleProgress, or_else, present, artifact_fits, no_artifacts,
}
use agentic_investment_os.Lifecycle.Completed.{
  AdvanceRecovery, CompletedReceipt, completed_receipt_is_valid, attention_is_bound,
  decision_is_bound, disposition_is_valid, disposition_of, advanced_receipt, admit_receipt,
}
use agentic_investment_os.Lifecycle.Decide.{reason_of}

-- What the constructors of the gathered checkpoints have checked.
abbrev pub checkpoints_are_valid :
    Option EvidenceCaptureCheckpoint → Option DecisionCheckpoint → Bool
checkpoints_are_valid none none = true
checkpoints_are_valid none (some d) = decision_checkpoint_is_valid d
checkpoints_are_valid (some e) none = evidence_capture_is_valid e
checkpoints_are_valid (some e) (some d) =
    evidence_capture_is_valid e && decision_checkpoint_is_valid d

abbrev pub attention_before : UtcInstant → Option AttentionArtifact → Bool
attention_before at none = true
attention_before at (some a) = leb a.available_at.value at.value

abbrev pub decision_before : UtcInstant → Option DecisionCheckpoint → Bool
decision_before at none = true
decision_before at (some d) = leb d.recorded_at.value at.value

-- The clock is not behind the cutoff, the attention artifact or the decision.
abbrev pub clock_is_current : LifecycleProgress → UtcInstant → Bool
clock_is_current p at =
    leb p.pinned_run_identity.evidence_cutoff.value at.value
    && attention_before at p.checkpoints.attention_artifact
    && decision_before at p.checkpoints.decision_checkpoint

-- The receipt's constructor admits what was gathered.
module _ (h : Fingerprints) (i : PinnedRunIdentity) (snapshot : UniverseSnapshot)
    (recovery : AdvanceRecovery) (at : UtcInstant) (capture : EvidenceCaptureCheckpoint)
    (a : AttentionArtifact) (dossier research memory : ResearchCheckpoint)
    (portfolio : PortfolioCheckpoint) (decision : Option DecisionCheckpoint)
    (reason : Option NoActionReason) where
  abbrev pub receipt : CompletedReceipt
  receipt =
      advanced_receipt i snapshot recovery at capture a dossier research memory portfolio decision
        (or_else reason (reason_of decision))

  receipt-attention :
      artifact_fits h i snapshot capture a ≡ true
      → leb a.available_at.value at.value ≡ true
      → attention_is_bound h receipt ≡ true
  unfolding attention_is_bound advanced_receipt artifact_fits
  receipt-attention fits available = ground (arith, fits, available)

  receipt-disposition :
      present reason ≡ no_artifacts (some memory)
      → is_refused portfolio ≡ is_none decision
      → checkpoints_are_valid none decision ≡ true
      → disposition_is_valid receipt receipt.disposition ≡ true
  unfolding disposition_is_valid disposition_of advanced_receipt decision_checkpoint_is_valid
  receipt-disposition reasoned decided valid = ground (arith, reasoned, decided, valid)

  pub receipt_lem :
      leb i.evidence_cutoff.value at.value ≡ true
      → evidence_capture_is_valid capture ≡ true
      → is_complete_capture capture ≡ true
      → artifact_fits h i snapshot capture a ≡ true
      → leb a.available_at.value at.value ≡ true
      → is_refused portfolio ≡ is_none decision
      → decision_before at decision ≡ true
      → checkpoints_are_valid none decision ≡ true
      → str_eq portfolio.policy_id i.portfolio_policy_hash ≡ true
      → str_eq portfolio.input_id i.portfolio_input_hash ≡ true
      → present reason ≡ no_artifacts (some memory)
      → admit_receipt h receipt ≡ ok receipt
  unfolding admit_receipt completed_receipt_is_valid decision_is_bound advanced_receipt
      evidence_capture_is_valid
  receipt_lem after_cutoff capture_valid complete fits available decided before valid policy input
        reasoned =
      ground (
        arith,
        after_cutoff,
        capture_valid,
        complete,
        receipt-attention fits available,
        decided,
        before,
        policy,
        input,
        receipt-disposition reasoned decided valid,
      )
