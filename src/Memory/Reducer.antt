-- ===== src/Memory/Reducer.antt =====
-- `decide_belief_record`, `_transition_is_valid` and the integrity of a history: memory/reducer.py,
-- with `BeliefLedgerEntry`, `BeliefHistory` and `RecordReceipt` of memory/beliefs.py.
use agentic_investment_os.Prelude.{
  ℕ, ◌+◌, Bool, true, false, ◌&&◌, ◌||◌, not, Option, none, some, List, [], ◌∷◌, ◌++◌, String,
  str_eq, ltb, leb, ◌==◌, is_none, length, get_last?, if◌then◌else◌,
}
use agentic_investment_os.Temporal.{UtcInstant}
use agentic_investment_os.Scheduler.Status.{is_hash}
use agentic_investment_os.Memory.Event.{
  Admission, BeliefEvent, BeliefStatus, claim_kind_eq, event_eq, option_eq, subject_eq,
  validate_belief_event,
}

pub data RecordRefusalCode : Type 0 where
  invalid_event event_identity_conflict invalid_transition invalid_authoritative_history :
      RecordRefusalCode
  invalid_evidence evidence_missing evidence_hash_mismatch evidence_after_cutoff : RecordRefusalCode

pub record BeliefLedgerEntry : Type 0 where
  pub ledger_position : ℕ
  pub event : BeliefEvent
  pub recorded_at : UtcInstant
  pub projection_identity : String

-- `RecordReceipt`: the two accepted dispositions carry the same fields, a refusal none of them.
pub data RecordReceipt : Type 0 where
  appended : String → ℕ → String → RecordReceipt
  replayed : String → ℕ → String → RecordReceipt
  refused : RecordRefusalCode → RecordReceipt

-- `AppendBeliefRecord | RecordReceipt`, or the `ValueError` of a history that is not intact or of an
-- entry that may not be built
pub data BeliefRecordDecision : Type 0 where
  append_belief_record : BeliefLedgerEntry → RecordReceipt → BeliefRecordDecision
  receipt : RecordReceipt → BeliefRecordDecision
  invalid_history : BeliefRecordDecision

-- `_ALLOWED_TRANSITIONS`
unfoldable pub transition_allowed : BeliefStatus → BeliefStatus → Bool
transition_allowed BeliefStatus.active s = true
transition_allowed BeliefStatus.weakened s = true
transition_allowed BeliefStatus.contradicted s = true
transition_allowed BeliefStatus.dormant s = true
transition_allowed BeliefStatus.expired BeliefStatus.active = true
transition_allowed BeliefStatus.expired BeliefStatus.superseded = true
transition_allowed BeliefStatus.expired BeliefStatus.archived = true
transition_allowed BeliefStatus.expired _ = false
transition_allowed BeliefStatus.refuted BeliefStatus.superseded = true
transition_allowed BeliefStatus.refuted BeliefStatus.archived = true
transition_allowed BeliefStatus.refuted _ = false
transition_allowed BeliefStatus.superseded BeliefStatus.archived = true
transition_allowed BeliefStatus.superseded _ = false
transition_allowed BeliefStatus.archived _ = false

abbrev is_active : BeliefStatus → Bool
is_active BeliefStatus.active = true
is_active _ = false

-- The entries of one belief
unfoldable pub of_belief : String → List BeliefLedgerEntry → List BeliefLedgerEntry
of_belief belief_id [] = []
of_belief belief_id (e ∷ es) =
    let rest = of_belief belief_id es in
    if str_eq e.event.belief_id belief_id then e ∷ rest else rest

-- `any(entry.event.event_id == id for entry in entries)`
unfoldable pub has_event_id : String → List BeliefLedgerEntry → Bool
has_event_id id [] = false
has_event_id id (e ∷ es) = str_eq e.event.event_id id || has_event_id id es

abbrev supersedes_one_of : Option String → List BeliefLedgerEntry → Bool
supersedes_one_of none es = true
supersedes_one_of (some id) es = has_event_id id es

-- The checks against the head of the belief's stream
unfoldable pub follows : List BeliefLedgerEntry → Option BeliefLedgerEntry → BeliefEvent → Bool
follows es none event =
    is_active event.status
    && is_none event.transition_from_event_id
    && is_none event.supersedes_event_id
follows es (some previous) event =
    option_eq event.transition_from_event_id (some previous.event.event_id)
    && subject_eq event.subject previous.event.subject
    && claim_kind_eq event.claim_kind previous.event.claim_kind
    && leb previous.event.transaction_at.value event.transaction_at.value
    && transition_allowed previous.event.status event.status
    && supersedes_one_of event.supersedes_event_id es

unfoldable pub transition_is_valid : List BeliefLedgerEntry → BeliefEvent → Bool
transition_is_valid entries event =
    let es = of_belief event.belief_id entries in follows es (get_last? es) event

-- The loop of `validate_belief_transition_history`; `validated` are the entries before.
unfoldable pub transitions_from : List BeliefLedgerEntry → List BeliefLedgerEntry → Bool
transitions_from validated [] = true
transitions_from validated (e ∷ es) =
    transition_is_valid validated e.event && transitions_from (validated ++ e ∷ []) es

module _ (a : Admission) where
  abbrev pub belief_projection_identity : Option String → BeliefEvent → UtcInstant → ℕ → String
  belief_projection_identity previous event recorded_at position = a.projection_hash (record {
    previous = previous;
    ledger_position = position;
    recorded_at = recorded_at;
    event_content_hash = event.content_hash;
  })

  -- The loop of `validate_belief_history_integrity`; `seen` are the entries before.
  unfoldable pub chained_from :
      List BeliefLedgerEntry → Option String → ℕ → List BeliefLedgerEntry → Bool
  chained_from seen previous position [] = true
  chained_from seen previous position (e ∷ es) =
      (e.ledger_position == position)
      && not (has_event_id e.event.event_id seen)
      && str_eq e.projection_identity
          (belief_projection_identity previous e.event e.recorded_at position)
      && chained_from (seen ++ e ∷ []) (some e.projection_identity) (position + 1) es

  unfoldable pub validate_belief_history_integrity : List BeliefLedgerEntry → Bool
  validate_belief_history_integrity entries =
      chained_from [] none 1 entries && transitions_from [] entries

  abbrev pub previous_projection : Option BeliefLedgerEntry → Option String
  previous_projection none = none
  previous_projection (some e) = some e.projection_identity

  -- The entry that `decide_belief_record` builds
  abbrev pub next_entry : List BeliefLedgerEntry → BeliefEvent → UtcInstant → BeliefLedgerEntry
  next_entry entries event recorded_at = record {
    ledger_position = length entries + 1;
    event = event;
    recorded_at = recorded_at;
    projection_identity =
        belief_projection_identity (previous_projection (get_last? entries)) event recorded_at
          (length entries + 1);
  }

  -- The first entry with the identity of the event
  unfoldable pub find_event : String → List BeliefLedgerEntry → Option BeliefLedgerEntry
  find_event id [] = none
  find_event id (e ∷ es) = if str_eq e.event.event_id id then some e else find_event id es

  -- What the search for the identity decides, and else the checks of a new event
  unfoldable pub decide_found :
      List BeliefLedgerEntry
      → BeliefEvent
      → UtcInstant
      → Option BeliefLedgerEntry
      → BeliefRecordDecision
  decide_found entries event recorded_at (some e) =
      if event_eq e.event event
      then receipt (RecordReceipt.replayed event.event_id e.ledger_position e.projection_identity)
      else receipt (RecordReceipt.refused RecordRefusalCode.event_identity_conflict)
  decide_found entries event recorded_at none =
      let entry = next_entry entries event recorded_at in
      if ltb recorded_at.value event.transaction_at.value
      then receipt (RecordReceipt.refused RecordRefusalCode.invalid_event)
      else if not (transition_is_valid entries event)
      then receipt (RecordReceipt.refused RecordRefusalCode.invalid_transition)
      else if not (is_hash entry.projection_identity)
      then invalid_history
      else append_belief_record entry
          (RecordReceipt.appended event.event_id entry.ledger_position entry.projection_identity)

  unfoldable pub decide_belief_record :
      List BeliefLedgerEntry → BeliefEvent → UtcInstant → BeliefRecordDecision
  unfolding decide_found
  decide_belief_record entries event recorded_at =
      if not (validate_belief_history_integrity entries)
      then invalid_history
      else if not (validate_belief_event a event)
      then receipt (RecordReceipt.refused RecordRefusalCode.invalid_event)
      else decide_found entries event recorded_at (find_event event.event_id entries)
