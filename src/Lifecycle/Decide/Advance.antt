-- ===== src/Lifecycle/Decide/Advance.antt =====
-- `decide_advance` of domain/lifecycle.py: input refusals, refusals that are replayed, and requests
-- against reconstructed histories.
use agentic_investment_os.Prelude.{
  Bool, false, ◌||◌, not, Option, none, some, List, String, is_none, Result, ok, err, Error, ◌>>=◌,
  if◌then◌else◌, invalid_lifecycle_state,
}
use agentic_investment_os.Temporal.{UtcInstant}
use agentic_investment_os.Lifecycle.Reason.{AdvanceFailureReason, input_failure_reason}
use agentic_investment_os.Lifecycle.Checkpoint.{empty}
use agentic_investment_os.Lifecycle.Command.{AdvanceCommand, Fingerprints}
use agentic_investment_os.Lifecycle.Stream.{LifecycleProgress, present}
use agentic_investment_os.Lifecycle.Receipt.{AdvanceReceipt, failed_closed}
use agentic_investment_os.Lifecycle.Refusal.{
  InputRefusal, LifecycleCommand, advance_command, input_refusal, DurableAdvanceRefusal,
  return_receipt, find_refusal, decide_terminal_refusal, decide_invalid_history,
}
use agentic_investment_os.Lifecycle.History.{LifecycleHistory, find_progress, reconstruct_lifecycle}
use agentic_investment_os.Lifecycle.Decision.{
  AdvanceAttempt, AdvanceDecision, refuse, advance_matches_progress,
}
use agentic_investment_os.Lifecycle.Decide.Streams.{
  refuse_bare, decide_idempotency_conflict, decide_valid_advance,
}

-- `_decide_input_refusal`, with the key of the refusal
unfoldable pub decide_keyed_refusal :
    LifecycleHistory
    → InputRefusal
    → UtcInstant
    → String
    → Option LifecycleProgress
    → Result AdvanceDecision
unfolding refuse_bare decide_idempotency_conflict
decide_keyed_refusal history c recorded_at key none =
    refuse_bare history (some key) (input_failure_reason c.code) recorded_at c.cycle
decide_keyed_refusal history c recorded_at key (some p) =
    decide_idempotency_conflict history p key c.cycle recorded_at

abbrev pub decide_by_key :
    LifecycleHistory
    → List LifecycleProgress
    → InputRefusal
    → UtcInstant
    → Option String
    → Result AdvanceDecision
unfolding refuse_bare decide_keyed_refusal
decide_by_key history ps c recorded_at none =
    refuse_bare history none (input_failure_reason c.code) recorded_at c.cycle
decide_by_key history ps c recorded_at (some key) =
    decide_keyed_refusal history c recorded_at key (find_progress key ps)

unfoldable pub decide_input_refusal :
    LifecycleHistory → List LifecycleProgress → InputRefusal → UtcInstant → Result AdvanceDecision
decide_input_refusal history ps c recorded_at =
    decide_by_key history ps c recorded_at c.idempotency_key

-- Whether a receipt, or the refusal it answers, depends on the effects of a stream
abbrev published_refusal : Option DurableAdvanceRefusal → Bool
published_refusal none = false
published_refusal (some r) = present r.decision_publication_refusal

abbrev refusal_of : List DurableAdvanceRefusal → LifecycleCommand → Option DurableAdvanceRefusal
refusal_of refusals (advance_command c) = find_refusal c.request.idempotency_key refusals
refusal_of refusals (input_refusal c) = none

unfoldable pub is_effect_bound : LifecycleHistory → LifecycleCommand → AdvanceReceipt → Bool
is_effect_bound history c receipt =
    not (empty receipt.evidence_artifact_ids)
    || not (empty receipt.evidence_refusal_ids)
    || not (is_none receipt.research_refusal_id)
    || published_refusal (refusal_of history.refusals c)

unfoldable pub answer_receipt : Result AdvanceReceipt → Result AdvanceDecision
answer_receipt receipt = receipt >>= λ r. ok (refuse (return_receipt r))

-- A refusal that depends on a stream, where its stream is found
unfoldable pub replay_matched :
    AdvanceCommand → AdvanceReceipt → Option LifecycleProgress → Result AdvanceDecision
unfolding answer_receipt
replay_matched c terminal none = err invalid_lifecycle_state
replay_matched c terminal (some p) =
    if not (advance_matches_progress p c)
    then answer_receipt (
        failed_closed AdvanceFailureReason.idempotency_key_conflict (some c.request.session) none
          none none)
    else ok (refuse (return_receipt terminal))

-- `decide_advance` on a reconstructed history, with the refusal that answers already
unfoldable pub decide_reconstructed :
    Fingerprints
    → LifecycleHistory
    → List LifecycleProgress
    → LifecycleCommand
    → AdvanceAttempt
    → UtcInstant
    → Option AdvanceReceipt
    → Result AdvanceDecision
unfolding replay_matched decide_valid_advance decide_input_refusal
decide_reconstructed h history ps (advance_command c) attempt recorded_at (some terminal) =
    replay_matched c terminal (find_progress c.request.idempotency_key ps)
decide_reconstructed h history ps (input_refusal c) attempt recorded_at (some terminal) =
    err invalid_lifecycle_state
decide_reconstructed h history ps (advance_command c) attempt recorded_at none =
    decide_valid_advance h history ps c attempt recorded_at
decide_reconstructed h history ps (input_refusal c) attempt recorded_at none =
    decide_input_refusal history ps c recorded_at

-- `_invalid_history_decision`
unfoldable pub invalid_history_decision :
    LifecycleHistory → LifecycleCommand → UtcInstant → Result AdvanceDecision
invalid_history_decision history c recorded_at = do
  d ← decide_invalid_history history.refusals c recorded_at history.next_refusal_sequence
  ok (refuse d)

-- `except InvalidLifecycleStateError`; other exceptions are raised on.
abbrev pub on_reconstruction :
    Result (List LifecycleProgress)
    → Result AdvanceDecision
    → (List LifecycleProgress → Result AdvanceDecision)
    → Result AdvanceDecision
on_reconstruction (ok ps) invalid next = next ps
on_reconstruction (err Error.invalid_lifecycle_state) invalid next = invalid
on_reconstruction (err e) invalid next = err e

abbrev effect_free : LifecycleHistory → LifecycleCommand → Option AdvanceReceipt → Bool
unfolding is_effect_bound
effect_free history c none = false
effect_free history c (some receipt) = not (is_effect_bound history c receipt)

abbrev return_terminal : Option AdvanceReceipt → Result AdvanceDecision
return_terminal none = err invalid_lifecycle_state
return_terminal (some receipt) = ok (refuse (return_receipt receipt))

-- `decide_advance` after its search for a refusal
unfoldable pub decide_after :
    Fingerprints
    → LifecycleHistory
    → LifecycleCommand
    → AdvanceAttempt
    → UtcInstant
    → Option AdvanceReceipt
    → Result AdvanceDecision
unfolding is_effect_bound decide_reconstructed invalid_history_decision
decide_after h history c attempt recorded_at terminal =
    if effect_free history c terminal
    then return_terminal terminal
    else on_reconstruction (reconstruct_lifecycle h history)
        (invalid_history_decision history c recorded_at)
        (λ ps. decide_reconstructed h history ps c attempt recorded_at terminal)

unfoldable pub decide_advance :
    Fingerprints
    → LifecycleHistory
    → LifecycleCommand
    → AdvanceAttempt
    → UtcInstant
    → Result AdvanceDecision
unfolding decide_after
decide_advance h history c attempt recorded_at = do
  terminal ← decide_terminal_refusal history.refusals c
  decide_after h history c attempt recorded_at terminal
