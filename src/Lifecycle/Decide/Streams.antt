-- ===== src/Lifecycle/Decide/Streams.antt =====
-- `_decide_valid_advance`, `_decide_new_stream` and `_decide_idempotency_conflict` of
-- domain/lifecycle.py.
use agentic_investment_os.Prelude.{
  ℕ, Bool, false, ◌||◌, not, Option, none, some, List, [], ◌∷◌, String, str_eq, is_none, ◌==◌,
  Result, ok, ◌>>=◌, if◌then◌else◌,
}
use agentic_investment_os.Temporal.{UtcInstant}
use agentic_investment_os.Scheduler.Policy.{MarketSession}
use agentic_investment_os.Lifecycle.Reason.{AdvanceFailureReason}
use agentic_investment_os.Lifecycle.Checkpoint.{NoActionReason, DecisionCheckpoint}
use agentic_investment_os.Lifecycle.Command.{AdvanceCommand, Fingerprints, stream_id}
use agentic_investment_os.Lifecycle.Stream.{
  LifecycleEvent, LifecycleEventKind, LifecycleProgress, or_else,
}
use agentic_investment_os.Lifecycle.Receipt.{failed_closed}
use agentic_investment_os.Lifecycle.Refusal.{return_receipt, append_bare_refusal}
use agentic_investment_os.Lifecycle.Completed.{AdvanceRecovery}
use agentic_investment_os.Lifecycle.History.{
  LifecycleHistory, DurableAdvanceConflict, is_complete, find_progress, is_text_in,
}
use agentic_investment_os.Lifecycle.Decision.{
  AdvanceAttempt, AdvanceDecision, refuse, append_conflict, append_event, return_completed, require,
  recovery_for_progress, advance_matches_progress, completed_receipt, append_next_event,
}

-- The first conflict of a key
unfoldable pub find_conflict : String → List DurableAdvanceConflict → Option DurableAdvanceConflict
find_conflict key [] = none
find_conflict key (c ∷ cs) = if str_eq c.idempotency_key key then some c else find_conflict key cs

abbrev conflict_of : String → DurableAdvanceConflict
conflict_of key = record {
  idempotency_key = key;
  reason = AdvanceFailureReason.idempotency_key_conflict;
}

unfoldable pub answer_conflict :
    String → Option MarketSession → Option DurableAdvanceConflict → Result AdvanceDecision
answer_conflict key cycle (some c) = do
  receipt ← failed_closed c.reason cycle none none none
  ok (refuse (return_receipt receipt))
answer_conflict key cycle none = do
  receipt ← failed_closed AdvanceFailureReason.idempotency_key_conflict cycle none none none
  ok (append_conflict (conflict_of key) receipt)

-- `_append_refusal` of a history, with its defaults
unfoldable pub refuse_bare :
    LifecycleHistory
    → Option String
    → AdvanceFailureReason
    → UtcInstant
    → Option MarketSession
    → Result AdvanceDecision
refuse_bare history key reason recorded_at cycle = do
  d ←
      append_bare_refusal history.refusals history.next_refusal_sequence key reason recorded_at
        cycle
  ok (refuse d)

-- `_decide_idempotency_conflict`
unfoldable pub decide_idempotency_conflict :
    LifecycleHistory
    → LifecycleProgress
    → String
    → Option MarketSession
    → UtcInstant
    → Result AdvanceDecision
unfolding refuse_bare answer_conflict
decide_idempotency_conflict history p key cycle recorded_at =
    if not (is_complete p)
    then refuse_bare history (some key) AdvanceFailureReason.idempotency_key_conflict recorded_at
        cycle
    else answer_conflict key cycle (find_conflict key history.conflicts)

abbrev is_stream_of : Fingerprints → String → List LifecycleProgress → Bool
is_stream_of h stream [] = false
is_stream_of h stream (p ∷ ps) = str_eq (stream_id h p.request) stream || is_stream_of h stream ps

-- The first event of a stream
abbrev pub first_event : Fingerprints → AdvanceCommand → UtcInstant → LifecycleEvent
first_event h c recorded_at = record {
  stream_id = stream_id h c.request;
  sequence = 0;
  request = c.request;
  pinned_run_identity = c.pinned_run_identity;
  event_kind = LifecycleEventKind.advance_requested;
  completed_phase = none;
  recorded_at = recorded_at;
  prepared_universe_snapshot = none;
  published_universe_snapshot_id = none;
  evidence_capture = none;
  attention_artifact = none;
  research_checkpoint = none;
  portfolio_checkpoint = none;
  decision_checkpoint = none;
  no_action_reason = none;
}

-- `_decide_new_stream`
unfoldable pub decide_new_stream :
    Fingerprints
    → LifecycleHistory
    → List LifecycleProgress
    → AdvanceCommand
    → AdvanceAttempt
    → UtcInstant
    → Result AdvanceDecision
unfolding refuse_bare
decide_new_stream h history ps c attempt recorded_at =
    if not (is_none attempt.recovery)
    then refuse_bare history (some c.request.idempotency_key)
        AdvanceFailureReason.invalid_durable_state recorded_at (some c.request.session)
    else if is_text_in (stream_id h c.request) history.occupied_stream_ids
        || is_stream_of h (stream_id h c.request) ps
    then refuse_bare history (some c.request.idempotency_key)
        AdvanceFailureReason.session_stream_conflict recorded_at (some c.request.session)
    else ok (
        append_event (first_event h c recorded_at)
          (record { recovery = some AdvanceRecovery.fresh; last_sequence = some 0 }))

abbrev pub reason_of : Option DecisionCheckpoint → Option NoActionReason
reason_of none = none
reason_of (some d) = d.no_action_reason

abbrev is_last : ℕ → Option ℕ → Bool
is_last sequence none = false
is_last sequence (some last) = sequence == last

-- The recovery that a complete stream's receipt reports
unfoldable pub final_recovery : LifecycleProgress → AdvanceAttempt → AdvanceRecovery
final_recovery p attempt =
    if is_last p.sequence attempt.last_sequence
    then recovery_for_progress p attempt
    else AdvanceRecovery.previously_completed

-- The receipt of a complete stream
unfoldable pub return_complete :
    Fingerprints → LifecycleProgress → AdvanceAttempt → UtcInstant → Result AdvanceDecision
unfolding final_recovery
return_complete h p attempt recorded_at = do
  portfolio ← require p.checkpoints.portfolio_checkpoint
  receipt ←
      completed_receipt h p (final_recovery p attempt) recorded_at portfolio
        p.checkpoints.decision_checkpoint
        (or_else p.checkpoints.no_action_reason (reason_of p.checkpoints.decision_checkpoint))
  ok (return_completed receipt)

-- `_decide_valid_advance`, with the stream of the command's key
unfoldable pub decide_with_stream :
    Fingerprints
    → LifecycleHistory
    → List LifecycleProgress
    → AdvanceCommand
    → AdvanceAttempt
    → UtcInstant
    → Option LifecycleProgress
    → Result AdvanceDecision
unfolding decide_new_stream decide_idempotency_conflict return_complete
decide_with_stream h history ps c attempt recorded_at none =
    decide_new_stream h history ps c attempt recorded_at
decide_with_stream h history ps c attempt recorded_at (some p) =
    if not (advance_matches_progress p c)
    then decide_idempotency_conflict history p c.request.idempotency_key (some c.request.session)
        recorded_at
    else if is_complete p
    then return_complete h p attempt recorded_at
    else append_next_event h history p c (recovery_for_progress p attempt) recorded_at

unfoldable pub decide_valid_advance :
    Fingerprints
    → LifecycleHistory
    → List LifecycleProgress
    → AdvanceCommand
    → AdvanceAttempt
    → UtcInstant
    → Result AdvanceDecision
unfolding decide_with_stream
decide_valid_advance h history ps c attempt recorded_at =
    decide_with_stream h history ps c attempt recorded_at
      (find_progress c.request.idempotency_key ps)
