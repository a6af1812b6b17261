-- ===== src/Memory/Records.antt =====
-- Belief histories under `decide_belief_record` of memory/reducer.py.
use text.Mathlib.TextPositions.{eq_refl}
use agentic_investment_os.Prelude.{
  ℕ, ◌+◌, ◌≡◌, ◌≢◌, refl, sym, ap, ◌∙◌, true, false, Option, none, some, List, [], ◌∷◌, ◌++◌,
  String, str_eq, length, get_last?, append_assoc, append-nil, suc, arith, inl, inr, Option-cases,
  Bool-cases,
}
use agentic_investment_os.Temporal.{UtcInstant}
use agentic_investment_os.Memory.Event.{Admission, BeliefEvent, event_eq, validate_belief_event}
use agentic_investment_os.Memory.Equality.{event_eq_refl, event_eq_sound}
use agentic_investment_os.Memory.Reducer.{
  BeliefLedgerEntry, RecordReceipt, RecordRefusalCode, append_belief_record, receipt, has_event_id,
  transition_is_valid, transitions_from, chained_from, validate_belief_history_integrity,
  previous_projection, belief_projection_identity, next_entry, find_event, decide_found,
  decide_belief_record,
}

transitions_from-snoc :
    (validated es : List BeliefLedgerEntry) (e : BeliefLedgerEntry)
    → transitions_from validated es ≡ true
    → transition_is_valid (validated ++ es) e.event ≡ true
    → transitions_from validated (es ++ e ∷ []) ≡ true
unfolding transitions_from
transitions_from-snoc validated [] e ok new =
    let here : transition_is_valid validated e.event ≡ true = rw (← append-nil validated) new in
    ground (arith, here)
transitions_from-snoc validated (x ∷ es) e ok new =
    let rest : transition_is_valid ((validated ++ x ∷ []) ++ es) e.event ≡ true =
      rw (append_assoc validated (x ∷ []) es) new in
    ground (arith, transitions_from-snoc (validated ++ x ∷ []) es e, rest)

find_event-none :
    (a : Admission) (id : String) (es : List BeliefLedgerEntry)
    → find_event a id es ≡ none
    → has_event_id id es ≡ false
unfolding find_event has_event_id
find_event-none a id [] absent = refl
find_event-none a id (e ∷ es) absent = ground (arith, find_event-none a id es)

find_event-append :
    (a : Admission) (id : String) (es : List BeliefLedgerEntry) (e : BeliefLedgerEntry)
    (more : List BeliefLedgerEntry)
    → find_event a id es ≡ none
    → e.event.event_id ≡ id
    → find_event a id (es ++ e ∷ more) ≡ some e
unfolding find_event
find_event-append a id [] e more absent own = rw (own, eq_refl id) refl
find_event-append a id (x ∷ es) e more absent own =
    ground (arith, find_event-append a id es e more, own)

module _ (a : Admission) where
  -- The projection that a further entry would be chained to.
  abbrev chained_to : Option String → List BeliefLedgerEntry → Option String
  chained_to previous [] = previous
  chained_to previous (e ∷ es) = chained_to (some e.projection_identity) es

  chained_to-last :
      (previous : Option String) (e : BeliefLedgerEntry) (es : List BeliefLedgerEntry)
      → chained_to previous (e ∷ es) ≡ previous_projection a (get_last? (e ∷ es))
  chained_to-last previous e [] = refl
  chained_to-last previous e (x ∷ es) = chained_to-last (some e.projection_identity) x es

  chained_to-history :
      (es : List BeliefLedgerEntry) → chained_to none es ≡ previous_projection a (get_last? es)
  chained_to-history [] = refl
  chained_to-history (e ∷ es) = chained_to-last none e es

  chained_from-snoc :
      (seen : List BeliefLedgerEntry) (previous : Option String) (position : ℕ)
      (es : List BeliefLedgerEntry) (e : BeliefLedgerEntry)
      → chained_from a seen previous position es ≡ true
      → e.ledger_position ≡ position + length es
      → has_event_id e.event.event_id (seen ++ es) ≡ false
      → e.projection_identity
        ≡ belief_projection_identity a
            (chained_to previous es)
            e.event
            e.recorded_at
            (position + length es)
      → chained_from a seen previous position (es ++ e ∷ []) ≡ true
  unfolding chained_from
  chained_from-snoc seen previous position [] e ok own fresh identity =
      let unseen : has_event_id e.event.event_id seen ≡ false = rw (← append-nil seen) fresh in
      let here : e.ledger_position ≡ position = omega (arith, own) in
      let alone : position + 0 ≡ position = omega arith in
      let same : e.projection_identity
          ≡ belief_projection_identity a previous e.event e.recorded_at position =
        rw alone at identity in
      ground (
        arith,
        unseen,
        here,
        ap (λ t. str_eq e.projection_identity t) (sym same) ∙ eq_refl e.projection_identity,
      )
  chained_from-snoc seen previous position (x ∷ es) e ok own fresh identity =
      let unseen : has_event_id e.event.event_id ((seen ++ x ∷ []) ++ es) ≡ false =
        rw (append_assoc seen (x ∷ []) es) fresh in
      let count : position + 1 + length es ≡ position + suc (length es) = omega arith in
      let own_next : e.ledger_position ≡ position + 1 + length es = omega (arith, own) in
      let identity_next : e.projection_identity
          ≡ belief_projection_identity a (chained_to (some x.projection_identity) es) e.event
              e.recorded_at (position + 1 + length es) =
        rw count identity in
      ground (
        arith,
        chained_from-snoc (seen ++ x ∷ []) (some x.projection_identity) (position + 1) es e,
        unseen,
        own_next,
        identity_next,
      )

  -- What an append tells of the history and the event.
  record Appended (entries : List BeliefLedgerEntry) (event : BeliefEvent) (at : UtcInstant)
      (e : BeliefLedgerEntry) : Type 0 where
    intact : validate_belief_history_integrity a entries ≡ true
    admitted : validate_belief_event a event ≡ true
    absent : find_event a event.event_id entries ≡ none
    valid : transition_is_valid entries event ≡ true
    entry : e ≡ next_entry a entries event at

  decide-Appended :
      (entries : List BeliefLedgerEntry) (event : BeliefEvent) (at : UtcInstant)
      (e : BeliefLedgerEntry) (r : RecordReceipt)
      → decide_belief_record a entries event at ≡ append_belief_record e r
      → Appended entries event at e
  unfolding decide_belief_record decide_found
  decide-Appended entries event at e r d =
      elim (Option-cases (find_event a event.event_id entries)) [
        | inl absent ↦
            let seen : decide_found a entries event at none ≡ append_belief_record e r =
              ground (arith, absent) in
            record {
              intact = ground arith;
              admitted = ground arith;
              absent = absent;
              valid = ground arith;
              entry = ground arith;
            }
        | inr (x, found) ↦ absurd (ground (arith, found))
      ]

  -- An event that `decide_belief_record` has the caller append leaves the history intact.
  pub append-intact :
      (entries : List BeliefLedgerEntry) (event : BeliefEvent) (at : UtcInstant)
      (e : BeliefLedgerEntry) (r : RecordReceipt)
      → decide_belief_record a entries event at ≡ append_belief_record e r
      → validate_belief_history_integrity a (entries ++ e ∷ []) ≡ true
  unfolding validate_belief_history_integrity
  append-intact entries event at e r d =
      let x = decide-Appended entries event at e r d in
      let order : 1 + length entries ≡ length entries + 1 = omega arith in
      let identity : (next_entry a entries event at).projection_identity
          ≡ belief_projection_identity a (chained_to none entries) event at (1 + length entries) =
        rw (chained_to-history entries, order) refl in
      let chained : chained_from a [] none 1 (entries ++ next_entry a entries event at ∷ [])
          ≡ true =
        chained_from-snoc [] none 1 entries (next_entry a entries event at)
          (ground (arith, x.intact)) (omega arith)
          (find_event-none a event.event_id entries x.absent) identity in
      let valid : transitions_from [] (entries ++ next_entry a entries event at ∷ []) ≡ true =
        transitions_from-snoc [] entries (next_entry a entries event at) (ground (arith, x.intact))
          x.valid in
      rw x.entry (ground (arith, chained, valid))

  module _ (entries : List BeliefLedgerEntry) (event : BeliefEvent) (at : UtcInstant)
      (e : BeliefLedgerEntry) (r : RecordReceipt)
      (d : decide_belief_record a entries event at ≡ append_belief_record e r) where
    entry_event : e.event ≡ event
    entry_event =
        ap (λ (x : BeliefLedgerEntry). x.event) (decide-Appended entries event at e r d).entry

    found_again :
        (more : List BeliefLedgerEntry) → find_event a event.event_id (entries ++ e ∷ more) ≡ some e
    found_again more =
        find_event-append a event.event_id entries e more
          (decide-Appended entries event at e r d).absent
          (ap (λ (x : BeliefEvent). x.event_id) entry_event)

    -- An event that was appended is replayed, with the position and the projection of its own entry,
    -- on every intact history that has grown from the append, whatever the instant.
    pub append_then_replay :
        (more : List BeliefLedgerEntry) (later : UtcInstant)
        → validate_belief_history_integrity a (entries ++ e ∷ more) ≡ true
        → decide_belief_record a (entries ++ e ∷ more) event later
          ≡ receipt (RecordReceipt.replayed event.event_id e.ledger_position e.projection_identity)
    unfolding decide_belief_record decide_found
    append_then_replay more later intact =
        let same : event_eq e.event event ≡ true = rw entry_event (event_eq_refl event) in
        rw (intact, (decide-Appended entries event at e r d).admitted, found_again more, same) refl

    -- An admitted event that is not the appended one but has its identity is refused as a conflict, on
    -- every intact history that has grown from the append, whatever the instant.
    pub append_then_conflict :
        (more : List BeliefLedgerEntry) (other : BeliefEvent) (later : UtcInstant)
        → validate_belief_history_integrity a (entries ++ e ∷ more) ≡ true
        → validate_belief_event a other ≡ true
        → other.event_id ≡ event.event_id
        → event ≢ other
        → decide_belief_record a (entries ++ e ∷ more) other later
          ≡ receipt (RecordReceipt.refused RecordRefusalCode.event_identity_conflict)
    unfolding decide_belief_record decide_found
    append_then_conflict more other later intact admitted same differs =
        let material : event_eq event other ≡ false = elim (Bool-cases (event_eq event other)) [
          | inl equal ↦ absurd (differs (event_eq_sound event other equal))
          | inr unequal ↦ unequal
        ] in
        let other_material : event_eq e.event other ≡ false = rw entry_event material in
        let found : find_event a other.event_id (entries ++ e ∷ more) ≡ some e =
          rw same (found_again more) in
        rw (intact, admitted, found, other_material) refl
