-- ===== src/Lifecycle/Application/Interface.antt =====
-- What `Advance.__call__` of application/lifecycle.py calls: the capabilities that its constructor is
-- given, each with the facts of the command and of the decision that it is handed. A capability that
-- may raise returns a result.
use native.Mathlib.Decide.{ℕ_discrete}
use agentic_investment_os.Prelude.{Bool, Option, List, String, Result, String-discrete, equal}
use agentic_investment_os.Temporal.{UtcInstant}
use agentic_investment_os.Scheduler.Policy.{MarketSession}
use agentic_investment_os.Lifecycle.Reason.{AttentionRefusalReason}
use agentic_investment_os.Lifecycle.Checkpoint.{
  NoActionReason, EvidenceCaptureCheckpoint, ResearchCheckpoint, ResearchRefusal,
  DecisionCheckpoint,
}
use agentic_investment_os.Lifecycle.Portfolio.{PortfolioCheckpoint}
use agentic_investment_os.Lifecycle.Command.{
  PinnedRunIdentity, UniverseSnapshot, AttentionArtifact, ResearchOutcome, DecisionPublication,
  AdvanceCommand,
}
use agentic_investment_os.Lifecycle.Receipt.{AdvanceReceipt}
use agentic_investment_os.Lifecycle.Completed.{CompletedReceipt}

-- The fields that the loop reads of a dossier build and of a research run
pub record DossierBuild : Type 0 where
  pub checkpoint : ResearchCheckpoint
  pub refusal : Option ResearchRefusal

pub record ResearchRun : Type 0 where
  pub checkpoint : ResearchCheckpoint
  pub refusal : Option ResearchRefusal
  pub no_action_reason : Option NoActionReason

-- What `attention_inputs` returns after `validate_checkpoint`, or that one of them raised an error of
-- the evidence
pub data AttentionReading (Inputs : Type 0) : Type 0 where
  attention_read : Inputs → AttentionReading Inputs
  attention_refused : AttentionRefusalReason → AttentionReading Inputs
  evidence_error : AttentionReading Inputs

-- A publication and the instant at which it was admitted or refused
pub record Publication : Type 0 where
  pub outcome : DecisionPublication
  pub recorded_at : UtcInstant

pub data AdvanceReport : Type 0 where
  failed : AdvanceReceipt → AdvanceReport
  completed : CompletedReceipt → AdvanceReport

pub record Capabilities (Inputs : Type 0) : Type 0 where
  pub evidence_capture : PinnedRunIdentity → UniverseSnapshot → Result EvidenceCaptureCheckpoint
  pub attention_inputs :
      PinnedRunIdentity
      → MarketSession
      → UniverseSnapshot
      → EvidenceCaptureCheckpoint
      → Result (AttentionReading Inputs)
  -- none where it raises `InvalidAttentionError`
  pub select_attention : Inputs → List AttentionArtifact → UtcInstant → Option AttentionArtifact
  pub build_dossiers : AdvanceCommand → UtcInstant → Result DossierBuild
  pub run_research : AdvanceCommand → DossierBuild → UtcInstant → Result ResearchRun
  pub update_memory : AdvanceCommand → ResearchRun → UtcInstant → Result ResearchOutcome
  pub replay_run :
      String → ResearchCheckpoint → ResearchCheckpoint → Option NoActionReason → Option ResearchRun
  -- `construct_portfolio_cycle` of `_portfolio_request`, and `record_cycle`
  pub construct_portfolio :
      AdvanceCommand
      → ResearchRun
      → ResearchCheckpoint
      → ResearchCheckpoint
      → UtcInstant
      → Result PortfolioCheckpoint
  pub replay_publication : String → MarketSession → Option DecisionCheckpoint
  -- the publication of a decision that is not replayed
  pub publish_decision :
      PinnedRunIdentity
      → ResearchCheckpoint
      → ResearchCheckpoint
      → PortfolioCheckpoint
      → Option NoActionReason
      → Result Publication
  -- the three `_validate_` methods
  pub validate_receipt : AdvanceCommand → AdvanceReport → Result AdvanceReport

unfoldable pub ResearchCheckpoint-discrete : Discrete ResearchCheckpoint
ResearchCheckpoint-discrete = hlevel (String-discrete, ℕ_discrete)

unfoldable pub same_checkpoint : ResearchCheckpoint → ResearchCheckpoint → Bool
same_checkpoint = equal ResearchCheckpoint-discrete
