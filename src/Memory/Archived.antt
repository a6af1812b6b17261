-- ===== src/Memory/Archived.antt =====
-- Archived beliefs under `decide_belief_record` of memory/reducer.py.
use text.Mathlib.TextPositions.{eq_refl}
use agentic_investment_os.Prelude.{
  ◌≡◌, ◌≢◌, ◌≤◌, refl, true, false, none, some, List, [], ◌∷◌, ◌++◌, String, str_eq, eq_iff,
  get_last?, get_last?-snoc, append_assoc, append-nil, arith, inl, inr, All, IsIn, Bool-cases,
}
use agentic_investment_os.Temporal.{UtcInstant}
use agentic_investment_os.Memory.Event.{Admission, BeliefEvent, BeliefStatus, validate_belief_event}
use agentic_investment_os.Memory.Reducer.{
  BeliefLedgerEntry, RecordReceipt, RecordRefusalCode, receipt, of_belief, follows,
  transition_is_valid, transition_allowed, transitions_from, validate_belief_history_integrity,
  find_event, decide_found, decide_belief_record,
}

-- The last event of the belief has archived it.
abbrev IsArchived : String → List BeliefLedgerEntry → Type 0
IsArchived id entries =
    (x : BeliefLedgerEntry) × (get_last? (of_belief id entries) ≡ some x)
    × (x.event.status ≡ BeliefStatus.archived)

of_belief-own :
    (id : String) (es : List BeliefLedgerEntry) (e : BeliefLedgerEntry)
    → str_eq e.event.belief_id id ≡ true
    → of_belief id (es ++ e ∷ []) ≡ of_belief id es ++ e ∷ []
unfolding of_belief
of_belief-own id [] e own = rw own refl
of_belief-own id (x ∷ es) e own = ground (arith, of_belief-own id es e own)

of_belief-other :
    (id : String) (es : List BeliefLedgerEntry) (e : BeliefLedgerEntry)
    → str_eq e.event.belief_id id ≡ false
    → of_belief id (es ++ e ∷ []) ≡ of_belief id es
unfolding of_belief
of_belief-other id [] e other = rw other refl
of_belief-other id (x ∷ es) e other = rw (of_belief-other id es e other) refl

IsArchived-refuses :
    (id : String) (entries : List BeliefLedgerEntry) (event : BeliefEvent)
    → IsArchived id entries
    → event.belief_id ≡ id
    → transition_is_valid entries event ≡ false
unfolding transition_is_valid follows transition_allowed
IsArchived-refuses id entries event (x, last, archived) own =
    let head : get_last? (of_belief event.belief_id entries) ≡ some x = rw own last in
    rw head (ground (arith, archived))

-- No valid entry takes a belief out of its archive.
IsArchived-step :
    (id : String) (entries : List BeliefLedgerEntry) (e : BeliefLedgerEntry)
    → IsArchived id entries
    → transition_is_valid entries e.event ≡ true
    → IsArchived id (entries ++ e ∷ [])
IsArchived-step id entries e archived valid = elim (Bool-cases (str_eq e.event.belief_id id)) [
  | inl own ↦
      let same : e.event.belief_id ≡ id = (eq_iff e.event.belief_id id).0 own in
      absurd (ground (arith, valid, IsArchived-refuses id entries e.event archived same))
  | inr other ↦ rw (of_belief-other id entries e other) archived
]

IsArchived-new :
    (id : String) (entries : List BeliefLedgerEntry) (e : BeliefLedgerEntry)
    → e.event.belief_id ≡ id
    → e.event.status ≡ BeliefStatus.archived
    → IsArchived id (entries ++ e ∷ [])
IsArchived-new id entries e own archived =
    let same : str_eq e.event.belief_id id ≡ true = rw own (eq_refl id) in
    (e, rw (of_belief-own id entries e same) (get_last?-snoc (of_belief id entries) e), archived)

IsArchived-kept :
    (id : String) (validated es : List BeliefLedgerEntry)
    → IsArchived id validated
    → transitions_from validated es ≡ true
    → IsArchived id (validated ++ es)
unfolding transitions_from
IsArchived-kept id validated [] archived valid = rw (append-nil validated) archived
IsArchived-kept id validated (e ∷ es) archived valid =
    let next = IsArchived-step id validated e archived (ground (arith, valid)) in
    let rest = IsArchived-kept id (validated ++ e ∷ []) es next (ground (arith, valid)) in
    rw (← append_assoc validated (e ∷ []) es) rest

IsArchived-in :
    (id : String) (validated es : List BeliefLedgerEntry) (x : BeliefLedgerEntry)
    → transitions_from validated es ≡ true
    → IsIn x es
    → x.event.belief_id ≡ id
    → x.event.status ≡ BeliefStatus.archived
    → IsArchived id (validated ++ es)
unfolding transitions_from
IsArchived-in id validated [] x valid i own archived = elim i [ ]
IsArchived-in id validated (e ∷ es) x valid (inl here) own archived =
    let next : IsArchived id (validated ++ e ∷ []) =
      IsArchived-new id validated e (rw (← here) own) (rw (← here) archived) in
    let rest = IsArchived-kept id (validated ++ e ∷ []) es next (ground (arith, valid)) in
    rw (← append_assoc validated (e ∷ []) es) rest
IsArchived-in id validated (e ∷ es) x valid (inr later) own archived =
    let rest =
      IsArchived-in id (validated ++ e ∷ []) es x (ground (arith, valid)) later own archived in
    rw (← append_assoc validated (e ∷ []) es) rest

find_event-fresh :
    (a : Admission) (id : String) (es : List BeliefLedgerEntry)
    → All (λ e. e.event.event_id ≢ id) es
    → find_event a id es ≡ none
unfolding find_event
find_event-fresh a id [] fresh = refl
find_event-fresh a id (e ∷ es) fresh = elim (Bool-cases (str_eq e.event.event_id id)) [
  | inl same ↦ absurd (fresh.0 ((eq_iff e.event.event_id id).0 same))
  | inr other ↦ rw other (find_event-fresh a id es fresh.1)
]

-- If any entry of an intact history has archived a belief, an admitted event of the belief with a new
-- identity, recorded no earlier than its transaction, is refused as an invalid transition.
pub archived_is_final :
    (a : Admission) (entries : List BeliefLedgerEntry) (x : BeliefLedgerEntry) (event : BeliefEvent)
    (at : UtcInstant)
    → validate_belief_history_integrity a entries ≡ true
    → IsIn x entries
    → x.event.status ≡ BeliefStatus.archived
    → x.event.belief_id ≡ event.belief_id
    → validate_belief_event a event ≡ true
    → All (λ e. e.event.event_id ≢ event.event_id) entries
    → event.transaction_at.value ≤ at.value
    → decide_belief_record a entries event at
      ≡ receipt (RecordReceipt.refused RecordRefusalCode.invalid_transition)
unfolding decide_belief_record decide_found validate_belief_history_integrity
archived_is_final a entries x event at intact i archived own admitted fresh due =
    let stream =
      IsArchived-in event.belief_id [] entries x (ground (arith, intact)) i own archived in
    let invalid : transition_is_valid entries event ≡ false =
      IsArchived-refuses event.belief_id entries event stream refl in
    let absent = find_event-fresh a event.event_id entries fresh in
    ground (arith, intact, admitted, absent, due, invalid)
