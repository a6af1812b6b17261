-- ===== src/Lifecycle/Command.antt =====
-- Requests, run identities and commands of domain/lifecycle.py, and what the event streams take
-- from elsewhere. The mode of a request has one value and is left out, as is what only the
-- application reads of a command (`portfolio_inputs`, `constitution`).
use native.Mathlib.Decide.{ℕ_discrete}
use agentic_investment_os.Prelude.{ℕ, Bool, Option, List, String, String-discrete, equal}
use agentic_investment_os.Temporal.{UtcInstant}
use agentic_investment_os.Scheduler.Policy.{MarketSession}
use agentic_investment_os.Lifecycle.Reason.{
  AttentionRefusalReason, DecisionPublicationRefusalReason,
}
use agentic_investment_os.Lifecycle.Checkpoint.{
  EvidenceCaptureCheckpoint, ResearchCheckpoint, ResearchRefusal, DecisionCheckpoint,
  NoActionReason,
}
use agentic_investment_os.Lifecycle.Portfolio.{PortfolioCheckpoint}

pub record AdvanceRequest : Type 0 where
  pub session : MarketSession
  pub idempotency_key : String

pub record PinnedRunIdentity : Type 0 where
  pub run_id : String
  pub cycle : MarketSession
  pub configuration_version : ℕ
  pub configuration_hash : String
  pub research_policy_hash : String
  pub constitution_version : ℕ
  pub constitution_hash : String
  pub data_regime : String
  pub evidence_cutoff : UtcInstant
  pub instrument_snapshot_hash : String
  pub position_snapshot_hash : String
  pub eligibility_policy_hash : String
  pub portfolio_policy_hash : String
  pub portfolio_input_hash : String

-- The tuple that a run's identity is the fingerprint of.
pub record RunMaterial : Type 0 where
  pub configuration_hash : String
  pub configuration_version : ℕ
  pub research_policy_hash : String
  pub constitution_hash : String
  pub constitution_version : ℕ
  pub session : MarketSession
  pub data_regime : String
  pub evidence_cutoff : UtcInstant
  pub instrument_snapshot_hash : String
  pub position_snapshot_hash : String
  pub eligibility_policy_hash : String
  pub portfolio_policy_hash : String
  pub portfolio_input_hash : String

-- `UniverseInputIdentity` of domain/universe.py
pub record UniverseInputIdentity : Type 0 where
  pub data_regime : String
  pub evidence_cutoff : UtcInstant
  pub instrument_snapshot_hash : String
  pub position_snapshot_hash : String
  pub eligibility_policy_hash : String

pub record ConstitutionReference : Type 0 where
  pub content_hash : String
  pub version : ℕ

-- `UniverseSnapshot` of domain/universe.py: of its inputs and its policy the facts that are pinned.
pub record UniverseSnapshot : Type 0 where
  pub snapshot_id : String
  pub run_id : String
  pub cycle : MarketSession
  pub inputs : UniverseInputIdentity

-- `AttentionArtifact` of domain/attention.py; `selection` stands for the rest of its payload.
pub record AttentionArtifact : Type 0 where
  pub artifact_id : String
  pub run_id : String
  pub cycle : MarketSession
  pub universe_snapshot_id : String
  pub cutoff : UtcInstant
  pub available_at : UtcInstant
  pub data_regime : String
  pub evidence_policy_id : String
  pub evidence_artifact_ids : List String
  pub history_fingerprint : String
  pub selection : String

pub data AttentionSelection : Type 0 where
  selected : AttentionArtifact → AttentionSelection
  not_selected : AttentionRefusalReason → AttentionSelection

-- `ResearchCheckpoint | ResearchRefusal`
pub data ResearchOutcome : Type 0 where
  research_done : ResearchCheckpoint → ResearchOutcome
  research_refused : ResearchRefusal → ResearchOutcome

pub data DecisionPublication : Type 0 where
  published : DecisionCheckpoint → DecisionPublication
  not_published : DecisionPublicationRefusalReason → DecisionPublication

pub record AdvanceCommand : Type 0 where
  pub request : AdvanceRequest
  pub pinned_run_identity : PinnedRunIdentity
  pub universe_snapshot : UniverseSnapshot
  pub evidence_capture : Option EvidenceCaptureCheckpoint
  pub attention_selection : Option AttentionSelection
  pub dossier_build : Option ResearchOutcome
  pub research_run : Option ResearchOutcome
  pub memory_update : Option ResearchOutcome
  pub portfolio_construction : Option PortfolioCheckpoint
  pub decision_publication : Option DecisionPublication
  pub no_action_reason : Option NoActionReason

-- SHA-256 over canonical JSON, and the functions of domain/attention.py that the streams call
pub record Fingerprints : Type 0 where
  pub run_fingerprint : RunMaterial → String
  -- `_fingerprint` of a mode and a session
  pub stream_fingerprint : MarketSession → String
  -- `parse_attention_artifact(artifact.to_payload()) == artifact`
  pub is_canonical : AttentionArtifact → Bool
  pub attention_history_fingerprint : List AttentionArtifact → String
  -- `validate_attention_history` returns
  pub attention_history_is_valid : List AttentionArtifact → Bool

unfoldable pub AdvanceRequest-discrete : Discrete AdvanceRequest
AdvanceRequest-discrete = hlevel (String-discrete, ℕ_discrete)

unfoldable pub PinnedRunIdentity-discrete : Discrete PinnedRunIdentity
PinnedRunIdentity-discrete = hlevel (String-discrete, ℕ_discrete)

unfoldable pub EvidenceCaptureCheckpoint-discrete : Discrete EvidenceCaptureCheckpoint
EvidenceCaptureCheckpoint-discrete = hlevel String-discrete

unfoldable pub same_request : AdvanceRequest → AdvanceRequest → Bool
same_request = equal AdvanceRequest-discrete

unfoldable pub same_identity : PinnedRunIdentity → PinnedRunIdentity → Bool
same_identity = equal PinnedRunIdentity-discrete

unfoldable pub same_capture : EvidenceCaptureCheckpoint → EvidenceCaptureCheckpoint → Bool
same_capture = equal EvidenceCaptureCheckpoint-discrete

-- `AdvanceRequest.stream_id`
abbrev pub stream_id : Fingerprints → AdvanceRequest → String
stream_id h r = h.stream_fingerprint r.session

-- What `_reconstruct_stream` hashes of a request and an identity
unfoldable pub run_material : AdvanceRequest → PinnedRunIdentity → RunMaterial
run_material request identity = record {
  configuration_hash = identity.configuration_hash;
  configuration_version = identity.configuration_version;
  research_policy_hash = identity.research_policy_hash;
  constitution_hash = identity.constitution_hash;
  constitution_version = identity.constitution_version;
  session = request.session;
  data_regime = identity.data_regime;
  evidence_cutoff = identity.evidence_cutoff;
  instrument_snapshot_hash = identity.instrument_snapshot_hash;
  position_snapshot_hash = identity.position_snapshot_hash;
  eligibility_policy_hash = identity.eligibility_policy_hash;
  portfolio_policy_hash = identity.portfolio_policy_hash;
  portfolio_input_hash = identity.portfolio_input_hash;
}

-- `PinnedRunIdentity.create`
unfoldable pub create_identity :
    Fingerprints
    → AdvanceRequest
    → ℕ
    → String
    → String
    → String
    → String
    → UniverseInputIdentity
    → ConstitutionReference
    → PinnedRunIdentity
create_identity h request configuration_version configuration_hash research_policy_hash
      portfolio_policy_hash portfolio_input_hash inputs constitution =
    record {
      run_id = h.run_fingerprint (record {
        configuration_hash = configuration_hash;
        configuration_version = configuration_version;
        research_policy_hash = research_policy_hash;
        constitution_hash = constitution.content_hash;
        constitution_version = constitution.version;
        session = request.session;
        data_regime = inputs.data_regime;
        evidence_cutoff = inputs.evidence_cutoff;
        instrument_snapshot_hash = inputs.instrument_snapshot_hash;
        position_snapshot_hash = inputs.position_snapshot_hash;
        eligibility_policy_hash = inputs.eligibility_policy_hash;
        portfolio_policy_hash = portfolio_policy_hash;
        portfolio_input_hash = portfolio_input_hash;
      });
      cycle = request.session;
      configuration_version = configuration_version;
      configuration_hash = configuration_hash;
      research_policy_hash = research_policy_hash;
      constitution_version = constitution.version;
      constitution_hash = constitution.content_hash;
      data_regime = inputs.data_regime;
      evidence_cutoff = inputs.evidence_cutoff;
      instrument_snapshot_hash = inputs.instrument_snapshot_hash;
      position_snapshot_hash = inputs.position_snapshot_hash;
      eligibility_policy_hash = inputs.eligibility_policy_hash;
      portfolio_policy_hash = portfolio_policy_hash;
      portfolio_input_hash = portfolio_input_hash;
    }
