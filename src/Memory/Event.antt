-- ===== src/Memory/Event.antt =====
-- Belief events and their admission: `BeliefEvent`, `_event_is_valid` and what it calls of
-- memory/admission.py, with `EquityInstrumentIdentity` of domain/identity.py. Regular expressions,
-- decimals, `str.strip` and SHA-256 over canonical JSON are parameters.
use agentic_investment_os.Prelude.{
  ℕ, Bool, true, false, ◌&&◌, ◌||◌, not, Option, none, some, List, [], ◌∷◌, String, str_eq, ltb,
  leb, text_lt, ascending, ◌==◌, length,
}
use agentic_investment_os.Temporal.{UtcInstant}
use agentic_investment_os.Scheduler.Status.{is_hash}

pub record EquityInstrumentIdentity : Type 0 where
  pub catalog_namespace : String
  pub catalog_id : String
  pub listing_venue : String

pub data BeliefClaimKind : Type 0 where
  expectation causal catalyst risk valuation liquidity : BeliefClaimKind

pub data BeliefEvidenceRelationship : Type 0 where
  supporting contradicting : BeliefEvidenceRelationship

pub data BeliefStatus : Type 0 where
  active weakened contradicted superseded refuted expired dormant archived : BeliefStatus

pub record BeliefEvidenceReference : Type 0 where
  pub artifact_id : String
  pub content_hash : String
  pub relationship : BeliefEvidenceRelationship

pub record BeliefEvent : Type 0 where
  pub event_id : String
  pub belief_id : String
  pub subject : EquityInstrumentIdentity
  pub claim_kind : BeliefClaimKind
  pub claim : String
  pub valid_at : UtcInstant
  pub transaction_at : UtcInstant
  pub evidence_cutoff : UtcInstant
  pub confidence : String
  pub evidence : List BeliefEvidenceReference
  pub falsifiers : List String
  pub status : BeliefStatus
  pub transition_from_event_id : Option String
  pub supersedes_event_id : Option String
  pub content_hash : String

-- The material of `belief_projection_identity`
pub record ProjectionMaterial : Type 0 where
  pub previous : Option String
  pub ledger_position : ℕ
  pub recorded_at : UtcInstant
  pub event_content_hash : String

pub record Admission : Type 0 where
  -- `_IDENTIFIER.fullmatch`
  pub is_identifier : String → Bool
  -- `_normalize_confidence`: a pattern, and the normal form of a decimal; none if it raises
  pub normalize_confidence : String → Option String
  -- `value == value.strip()`, the length and the absence of a NUL character
  pub is_stripped : String → Bool
  pub len : String → ℕ
  pub has_nul : String → Bool
  -- SHA-256 of the canonical JSON text, as 64 hexadecimal digits. The content hash of an event does
  -- not read the event's own `content_hash`.
  pub event_hash : BeliefEvent → String
  pub projection_hash : ProjectionMaterial → String

abbrev pub claim_kind_eq : BeliefClaimKind → BeliefClaimKind → Bool
claim_kind_eq expectation expectation = true
claim_kind_eq causal causal = true
claim_kind_eq catalyst catalyst = true
claim_kind_eq risk risk = true
claim_kind_eq valuation valuation = true
claim_kind_eq liquidity liquidity = true
claim_kind_eq _ _ = false

abbrev pub relationship_value : BeliefEvidenceRelationship → String
relationship_value supporting = "supporting"
relationship_value contradicting = "contradicting"

abbrev pub status_value : BeliefStatus → String
status_value active = "active"
status_value weakened = "weakened"
status_value contradicted = "contradicted"
status_value superseded = "superseded"
status_value refuted = "refuted"
status_value expired = "expired"
status_value dormant = "dormant"
status_value archived = "archived"

abbrev pub subject_eq : EquityInstrumentIdentity → EquityInstrumentIdentity → Bool
subject_eq a b =
    str_eq a.catalog_namespace b.catalog_namespace
    && str_eq a.catalog_id b.catalog_id
    && str_eq a.listing_venue b.listing_venue

abbrev pub option_eq : Option String → Option String → Bool
option_eq none none = true
option_eq (some s) (some t) = str_eq s t
option_eq _ _ = false

abbrev pub strings_eq : List String → List String → Bool
strings_eq [] [] = true
strings_eq (s ∷ ss) (t ∷ ts) = str_eq s t && strings_eq ss ts
strings_eq _ _ = false

abbrev pub reference_eq : BeliefEvidenceReference → BeliefEvidenceReference → Bool
reference_eq a b =
    str_eq a.artifact_id b.artifact_id
    && str_eq a.content_hash b.content_hash
    && str_eq (relationship_value a.relationship) (relationship_value b.relationship)

abbrev pub references_eq : List BeliefEvidenceReference → List BeliefEvidenceReference → Bool
references_eq [] [] = true
references_eq (a ∷ rs) (b ∷ ts) = reference_eq a b && references_eq rs ts
references_eq _ _ = false

-- `==` of the dataclass: every field
unfoldable pub event_eq : BeliefEvent → BeliefEvent → Bool
event_eq a b =
    str_eq a.event_id b.event_id
    && str_eq a.belief_id b.belief_id
    && subject_eq a.subject b.subject
    && claim_kind_eq a.claim_kind b.claim_kind
    && str_eq a.claim b.claim
    && (a.valid_at.value == b.valid_at.value)
    && (a.transaction_at.value == b.transaction_at.value)
    && (a.evidence_cutoff.value == b.evidence_cutoff.value)
    && str_eq a.confidence b.confidence
    && references_eq a.evidence b.evidence
    && strings_eq a.falsifiers b.falsifiers
    && str_eq (status_value a.status) (status_value b.status)
    && option_eq a.transition_from_event_id b.transition_from_event_id
    && option_eq a.supersedes_event_id b.supersedes_event_id
    && str_eq a.content_hash b.content_hash

-- `_valid_reference` for every one
abbrev valid_references : List BeliefEvidenceReference → Bool
valid_references [] = true
valid_references (r ∷ rs) = is_hash r.artifact_id && is_hash r.content_hash && valid_references rs

abbrev key_lt : BeliefEvidenceReference → BeliefEvidenceReference → Bool
key_lt a b =
    text_lt a.artifact_id b.artifact_id
    || (str_eq a.artifact_id b.artifact_id
        && text_lt (relationship_value a.relationship) (relationship_value b.relationship))

-- `keys == tuple(sorted(set(keys)))`: strictly ascending
abbrev ascending_keys : List BeliefEvidenceReference → Bool
ascending_keys [] = true
ascending_keys (a ∷ []) = true
ascending_keys (a ∷ b ∷ rs) = key_lt a b && ascending_keys (b ∷ rs)

unfoldable pub valid_evidence_tuple : List BeliefEvidenceReference → Bool
valid_evidence_tuple rs =
    leb 1 (length rs) && leb (length rs) 32 && valid_references rs && ascending_keys rs

module _ (a : Admission) where
  abbrev bounded_text : String → ℕ → Bool
  bounded_text s maximum =
      a.is_stripped s && ltb 0 (a.len s) && leb (a.len s) maximum && not (a.has_nul s)

  abbrev all_bounded : List String → Bool
  all_bounded [] = true
  all_bounded (s ∷ ss) = bounded_text s 1_000 && all_bounded ss

  unfoldable pub valid_falsifier_tuple : List String → Bool
  valid_falsifier_tuple fs =
      leb 1 (length fs) && leb (length fs) 16 && all_bounded fs && ascending fs

  abbrev optional_identifier : Option String → Bool
  optional_identifier none = true
  optional_identifier (some s) = a.is_identifier s

  -- `_event_is_valid`
  unfoldable pub validate_belief_event : BeliefEvent → Bool
  validate_belief_event e =
      option_eq (a.normalize_confidence e.confidence) (some e.confidence)
      && a.is_identifier e.event_id
      && a.is_identifier e.belief_id
      && bounded_text e.claim 4_000
      && leb e.valid_at.value e.transaction_at.value
      && leb e.evidence_cutoff.value e.transaction_at.value
      && valid_evidence_tuple e.evidence
      && valid_falsifier_tuple e.falsifiers
      && optional_identifier e.transition_from_event_id
      && optional_identifier e.supersedes_event_id
      && is_hash e.content_hash
      && str_eq (a.event_hash e) e.content_hash
