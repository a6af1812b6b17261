-- ===== src/Lifecycle/Checkpoint.antt =====
-- The checkpoints that the phases of a run leave, of domain/lifecycle.py, with the checks of their
-- constructors.
use agentic_investment_os.Prelude.{
  ℕ, Bool, true, false, ◌&&◌, not, Option, none, some, List, [], ◌∷◌, String, is_none, ltb,
  ascending,
}
use agentic_investment_os.Temporal.{UtcInstant}
use agentic_investment_os.Scheduler.Status.{is_hash}

pub data LifecyclePhase : Type 0 where
  reconcile_prior_state pin_run_inputs snapshot_universe capture_evidence : LifecyclePhase
  select_attention build_dossiers run_research update_memory : LifecyclePhase
  construct_portfolio publish_decision await_execution : LifecyclePhase

pub data NoActionReason : Type 0 where
  no_attention no_valid_thesis skeptic_rejected cio_abstained : NoActionReason
  no_authorized_adjustments : NoActionReason

pub data PortfolioShadowKind : Type 0 where
  conservative growth equal_weight : PortfolioShadowKind

pub record EvidenceCaptureCheckpoint : Type 0 where
  pub policy_id : String
  pub artifact_ids : List String
  pub refusal_ids : List String

pub record ResearchCheckpoint : Type 0 where
  pub artifact_ids : List String
  pub call_ids : List String
  pub input_tokens : ℕ
  pub output_tokens : ℕ
  pub turns : ℕ

pub record PortfolioShadowReference : Type 0 where
  pub account_kind : PortfolioShadowKind
  pub account_id : String

pub record DecisionCheckpoint : Type 0 where
  pub decision_record_id : String
  pub packet_id : Option String
  pub packet_expires_at : Option UtcInstant
  pub recorded_at : UtcInstant
  pub no_action_reason : Option NoActionReason

pub data MemoryUpdateRefusalReason : Type 0 where
  current_belief_history_unavailable unknown_record_refusal invalid_event :
      MemoryUpdateRefusalReason
  event_identity_conflict invalid_transition invalid_authoritative_history :
      MemoryUpdateRefusalReason
  invalid_evidence evidence_missing evidence_hash_mismatch : MemoryUpdateRefusalReason
  evidence_after_cutoff : MemoryUpdateRefusalReason

pub record MemoryUpdateRefusal : Type 0 where
  pub run_id : String
  pub failed_event_id : String
  pub reason : MemoryUpdateRefusalReason
  pub recorded_at : UtcInstant
  pub accepted_event_ids : List String
  pub attempted_event_content_hash : Option String

pub record ResearchRefusal : Type 0 where
  pub refusal_id : String
  pub checkpoint : ResearchCheckpoint
  pub terminal_call_id : Option String
  pub memory_update_refusal : Option MemoryUpdateRefusal

abbrev pub empty : List String → Bool
empty [] = true
empty (s ∷ ss) = false

abbrev pub all_hashes : List String → Bool
all_hashes [] = true
all_hashes (s ∷ ss) = is_hash s && all_hashes ss

-- `_valid_optional_hash_references`, and `_valid_evidence_references`
abbrev pub valid_hash_references : List String → Bool
valid_hash_references ids = ascending ids && all_hashes ids

-- `EvidenceCaptureCheckpoint.__post_init__`
unfoldable pub evidence_capture_is_valid : EvidenceCaptureCheckpoint → Bool
evidence_capture_is_valid c =
    is_hash c.policy_id
    && valid_hash_references c.artifact_ids
    && valid_hash_references c.refusal_ids

-- `EvidenceCaptureCheckpoint.is_complete`
abbrev pub is_complete_capture : EvidenceCaptureCheckpoint → Bool
is_complete_capture c = not (empty c.artifact_ids) && empty c.refusal_ids

-- `ResearchCheckpoint.__post_init__`; its counts are no negative numbers here.
unfoldable pub research_checkpoint_is_valid : ResearchCheckpoint → Bool
research_checkpoint_is_valid c =
    valid_hash_references c.artifact_ids && valid_hash_references c.call_ids

abbrev is_no_adjustment : Option NoActionReason → Bool
is_no_adjustment (some NoActionReason.no_authorized_adjustments) = true
is_no_adjustment _ = false

abbrev expires_after : UtcInstant → Option UtcInstant → Bool
expires_after at none = false
expires_after at (some e) = ltb at.value e.value

abbrev packet_is_valid : DecisionCheckpoint → Option String → Bool
packet_is_valid c none = is_none c.packet_expires_at && is_no_adjustment c.no_action_reason
packet_is_valid c (some p) =
    is_hash p && expires_after c.recorded_at c.packet_expires_at && is_none c.no_action_reason

-- `DecisionCheckpoint.__post_init__`
unfoldable pub decision_checkpoint_is_valid : DecisionCheckpoint → Bool
decision_checkpoint_is_valid c = is_hash c.decision_record_id && packet_is_valid c c.packet_id
