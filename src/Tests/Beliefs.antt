-- ===== src/Tests/Beliefs.antt =====
-- A belief that is recorded, replayed, contradicted and archived.
use Prim.Native.String.{len}
use agentic_investment_os.Prelude.{
  All, List, ◌≡◌, ◌≢◌, refl, String, str_eq, eq_iff, ap, arith, inl, inr, true, false, none, some,
  [], ◌∷◌,
}
use agentic_investment_os.Temporal.{UtcInstant}
use agentic_investment_os.Scheduler.Status.{is_hash}
use agentic_investment_os.Memory.Event.{
  Admission, BeliefEvent, BeliefStatus, BeliefClaimKind, BeliefEvidenceRelationship,
  validate_belief_event, valid_evidence_tuple, valid_falsifier_tuple,
}
use agentic_investment_os.Memory.Reducer.{
  BeliefLedgerEntry, RecordReceipt, RecordRefusalCode, append_belief_record, receipt, next_entry,
  decide_belief_record, decide_found, find_event, validate_belief_history_integrity, chained_from,
  transitions_from, transition_is_valid, transition_allowed, has_event_id, follows, of_belief,
}
use agentic_investment_os.Memory.Evidence.{
  BeliefEvidenceArtifact, IsResolved, validate_belief_evidence, valid_events, valid_artifacts,
  find_artifact, check_reference, check_references, check_events, accepted_evidence-IsResolved,
}
use agentic_investment_os.Memory.Records.{append-intact, append_then_replay, append_then_conflict}
use agentic_investment_os.Memory.Archived.{archived_is_final}
use agentic_investment_os.Tests.Fixture.{zeros}

abbrev admission : Admission
admission = record {
  is_identifier = λ s. true;
  normalize_confidence = λ s. some s;
  is_stripped = λ s. true;
  len = len;
  has_nul = λ s. false;
  event_hash = λ e. zeros;
  projection_hash = λ m. zeros;
}

abbrev noon : UtcInstant
noon = record { value = 43_200_000_000 }

abbrev event : BeliefEvent
event = record {
  event_id = "event-1";
  belief_id = "belief-1";
  subject = record { catalog_namespace = "catalog"; catalog_id = "1"; listing_venue = "XNYS" };
  claim_kind = BeliefClaimKind.expectation;
  claim = "Margins recover.";
  valid_at = noon;
  transaction_at = noon;
  evidence_cutoff = noon;
  confidence = "0.6";
  evidence =
      record {
        artifact_id = zeros;
        content_hash = zeros;
        relationship = BeliefEvidenceRelationship.supporting;
      }
      ∷ [];
  falsifiers = "Margins fall." ∷ [];
  status = BeliefStatus.active;
  transition_from_event_id = none;
  supersedes_event_id = none;
  content_hash = zeros;
}

abbrev entry : BeliefLedgerEntry
entry = next_entry admission [] event noon

recorded :
    decide_belief_record admission [] event noon
    ≡ append_belief_record entry (RecordReceipt.appended "event-1" 1 zeros)
unfolding decide_belief_record decide_found find_event validate_belief_history_integrity
    chained_from transitions_from transition_is_valid follows of_belief validate_belief_event
    is_hash valid_evidence_tuple valid_falsifier_tuple
recorded = refl

append-intact_example : validate_belief_history_integrity admission (entry ∷ []) ≡ true
append-intact_example =
    append-intact admission [] event noon entry (RecordReceipt.appended "event-1" 1 zeros) recorded

-- The belief is archived by a later event.
abbrev archiving_event : BeliefEvent
archiving_event = record event {
  event_id = "event-2";
  status = BeliefStatus.archived;
  transition_from_event_id = some "event-1";
}

abbrev archiving_entry : BeliefLedgerEntry
archiving_entry = next_entry admission (entry ∷ []) archiving_event noon

archived_intact : validate_belief_history_integrity admission (entry ∷ archiving_entry ∷ []) ≡ true
unfolding validate_belief_history_integrity chained_from transitions_from transition_is_valid
    follows of_belief transition_allowed has_event_id
archived_intact = refl

append_then_replay_example :
    decide_belief_record admission (entry ∷ archiving_entry ∷ []) event (record { value = 0 })
    ≡ receipt (RecordReceipt.replayed "event-1" 1 zeros)
append_then_replay_example =
    append_then_replay admission [] event noon entry (RecordReceipt.appended "event-1" 1 zeros)
      recorded (archiving_entry ∷ []) (record { value = 0 }) archived_intact

-- Only the confidence differs.
abbrev other_event : BeliefEvent
other_event = record event { confidence = "0.7" }

other_admitted : validate_belief_event admission other_event ≡ true
unfolding validate_belief_event is_hash valid_evidence_tuple valid_falsifier_tuple
other_admitted = refl

-- Texts that are told apart differ.
texts_differ : (s t : String) → str_eq s t ≡ false → s ≢ t
texts_differ s t told e = let same = (eq_iff s t).1 e in ground (arith, told, same)

differs : event ≢ other_event
differs e = texts_differ "0.6" "0.7" refl (ap (λ (x : BeliefEvent). x.confidence) e)

append_then_conflict_example :
    decide_belief_record admission (entry ∷ archiving_entry ∷ []) other_event noon
    ≡ receipt (RecordReceipt.refused RecordRefusalCode.event_identity_conflict)
append_then_conflict_example =
    append_then_conflict admission [] event noon entry (RecordReceipt.appended "event-1" 1 zeros)
      recorded (archiving_entry ∷ []) other_event noon archived_intact other_admitted refl differs

-- An attempt to take the belief up again
abbrev reviving_event : BeliefEvent
reviving_event = record event { event_id = "event-3"; transition_from_event_id = some "event-2" }

reviving_admitted : validate_belief_event admission reviving_event ≡ true
unfolding validate_belief_event is_hash valid_evidence_tuple valid_falsifier_tuple
reviving_admitted = refl

reviving_is_new :
    All (λ (e : BeliefLedgerEntry). e.event.event_id ≢ "event-3") (entry ∷ archiving_entry ∷ [])
reviving_is_new =
    (texts_differ "event-1" "event-3" refl, (texts_differ "event-2" "event-3" refl, tt))

archived_is_final_example :
    decide_belief_record admission (entry ∷ archiving_entry ∷ []) reviving_event noon
    ≡ receipt (RecordReceipt.refused RecordRefusalCode.invalid_transition)
archived_is_final_example =
    archived_is_final admission (entry ∷ archiving_entry ∷ []) archiving_entry reviving_event noon
      archived_intact (inr (inl refl)) refl refl reviving_admitted reviving_is_new (omega arith)

abbrev artifacts : List BeliefEvidenceArtifact
artifacts = record { artifact_id = zeros; content_hash = zeros; available_at = noon } ∷ []

accepted : validate_belief_evidence admission (event ∷ []) artifacts ≡ none
unfolding validate_belief_evidence valid_events valid_artifacts find_artifact check_reference
    check_references check_events validate_belief_event is_hash valid_evidence_tuple
    valid_falsifier_tuple
accepted = refl

accepted_evidence-IsResolved_example :
    All (λ (e : BeliefEvent). All (IsResolved artifacts e.evidence_cutoff) e.evidence) (event ∷ [])
accepted_evidence-IsResolved_example =
    accepted_evidence-IsResolved admission (event ∷ []) artifacts accepted
