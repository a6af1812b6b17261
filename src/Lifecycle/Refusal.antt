-- ===== src/Lifecycle/Refusal.antt =====
-- Terminal refusals of domain/lifecycle.py: `decide_terminal_refusal`, `decide_invalid_history`,
-- `_append_refusal`.
use agentic_investment_os.Prelude.{
  ℕ, ◌+◌, Bool, true, false, ◌&&◌, ◌||◌, not, Option, none, some, List, [], ◌∷◌, String, str_eq,
  is_none, length, Result, ok, ◌>>=◌, if◌then◌else◌,
}
use agentic_investment_os.Temporal.{UtcInstant}
use agentic_investment_os.Scheduler.Policy.{MarketSession}
use agentic_investment_os.Scheduler.Host.{same_cycle}
use agentic_investment_os.Lifecycle.Checkpoint.{EvidenceCaptureCheckpoint, ResearchRefusal}
use agentic_investment_os.Lifecycle.Command.{AdvanceRequest, AdvanceCommand}
use agentic_investment_os.Lifecycle.Receipt.{AdvanceReceipt, failed_closed}
use agentic_investment_os.Lifecycle.Reason.{
  AdvanceFailureReason, InputRefusalCode, AttentionRefusalReason, DecisionPublicationRefusalReason,
  same_reason, input_failure_reason, is_input_failure_reason,
}

pub record InputRefusal : Type 0 where
  pub code : InputRefusalCode
  pub idempotency_key : Option String
  pub cycle : Option MarketSession

pub data LifecycleCommand : Type 0 where
  advance_command : AdvanceCommand → LifecycleCommand
  input_refusal : InputRefusal → LifecycleCommand

pub record DurableAdvanceRefusal : Type 0 where
  pub sequence : ℕ
  pub idempotency_key : Option String
  pub reason : AdvanceFailureReason
  pub recorded_at : UtcInstant
  pub cycle : Option MarketSession
  pub evidence_capture : Option EvidenceCaptureCheckpoint
  pub attention_refusal_reason : Option AttentionRefusalReason
  pub research_refusal : Option ResearchRefusal
  pub decision_publication_refusal : Option DecisionPublicationRefusalReason

-- `AdvanceReceipt | AppendTerminalLifecycleRecord`
pub data LifecycleDecision : Type 0 where
  return_receipt : AdvanceReceipt → LifecycleDecision
  append_terminal : DurableAdvanceRefusal → AdvanceReceipt → LifecycleDecision

abbrev pub same_key : Option String → Option String → Bool
same_key none none = true
same_key (some s) (some t) = str_eq s t
same_key _ _ = false

abbrev pub equal_cycles : Option MarketSession → Option MarketSession → Bool
equal_cycles none none = true
equal_cycles (some c) (some d) = same_cycle c d
equal_cycles _ _ = false

-- The first refusal of a request's key
unfoldable pub find_refusal : String → List DurableAdvanceRefusal → Option DurableAdvanceRefusal
find_refusal key [] = none
find_refusal key (r ∷ rs) =
    if same_key r.idempotency_key (some key) then some r else find_refusal key rs

-- The first refusal that an input refusal repeats
abbrev pub repeats : InputRefusal → DurableAdvanceRefusal → Bool
repeats c r =
    same_key r.idempotency_key c.idempotency_key
    && (not (is_none c.idempotency_key)
        || (equal_cycles r.cycle c.cycle && same_reason r.reason (input_failure_reason c.code)))

unfoldable pub find_input_refusal :
    InputRefusal → List DurableAdvanceRefusal → Option DurableAdvanceRefusal
find_input_refusal c [] = none
find_input_refusal c (r ∷ rs) = if repeats c r then some r else find_input_refusal c rs

abbrev refuse : AdvanceFailureReason → Option MarketSession → Result (Option AdvanceReceipt)
refuse reason cycle = do receipt ← failed_closed reason cycle none none none; ok (some receipt)

-- `_terminal_advance_refusal` after its search
unfoldable pub replay_advance :
    AdvanceRequest → Option DurableAdvanceRefusal → Result (Option AdvanceReceipt)
replay_advance c none = ok none
replay_advance c (some r) =
    if not (equal_cycles r.cycle (some c.session)) || is_input_failure_reason r.reason
    then refuse AdvanceFailureReason.idempotency_key_conflict (some c.session)
    else do
      receipt ←
          failed_closed r.reason (some c.session) r.evidence_capture r.attention_refusal_reason
            r.research_refusal
      ok (some receipt)

-- `_terminal_input_refusal` after its search
unfoldable pub replay_input :
    InputRefusal → Option DurableAdvanceRefusal → Result (Option AdvanceReceipt)
replay_input c none = ok none
replay_input c (some r) =
    if not (is_none c.idempotency_key) && not (equal_cycles r.cycle c.cycle)
    then refuse AdvanceFailureReason.idempotency_key_conflict c.cycle
    else if same_reason (input_failure_reason c.code) AdvanceFailureReason.invalid_durable_state
    then refuse (input_failure_reason c.code) c.cycle
    else if not (is_none c.idempotency_key)
        && not (same_reason r.reason (input_failure_reason c.code))
    then refuse AdvanceFailureReason.idempotency_key_conflict c.cycle
    else refuse r.reason c.cycle

unfoldable pub decide_terminal_refusal :
    List DurableAdvanceRefusal → LifecycleCommand → Result (Option AdvanceReceipt)
decide_terminal_refusal refusals (advance_command c) =
    replay_advance c.request (find_refusal c.request.idempotency_key refusals)
decide_terminal_refusal refusals (input_refusal c) = replay_input c (find_input_refusal c refusals)

abbrev sequence_of : List DurableAdvanceRefusal → Option ℕ → ℕ
sequence_of refusals none = length refusals + 1
sequence_of refusals (some n) = n

-- `_append_refusal` of a history with these refusals
unfoldable pub append_refusal :
    List DurableAdvanceRefusal
    → Option ℕ
    → Option String
    → AdvanceFailureReason
    → UtcInstant
    → Option MarketSession
    → Option EvidenceCaptureCheckpoint
    → Option AttentionRefusalReason
    → Option ResearchRefusal
    → Option DecisionPublicationRefusalReason
    → Result LifecycleDecision
append_refusal refusals next key reason recorded_at cycle evidence attention research publication =
    do
      receipt ← failed_closed reason cycle evidence attention research
      ok (
          append_terminal
            (record {
              sequence = sequence_of refusals next;
              idempotency_key = key;
              reason = reason;
              recorded_at = recorded_at;
              cycle = cycle;
              evidence_capture = evidence;
              attention_refusal_reason = attention;
              research_refusal = research;
              decision_publication_refusal = publication;
            })
            receipt)

-- `_append_refusal` with its defaults
abbrev pub append_bare_refusal :
    List DurableAdvanceRefusal
    → Option ℕ
    → Option String
    → AdvanceFailureReason
    → UtcInstant
    → Option MarketSession
    → Result LifecycleDecision
append_bare_refusal refusals next key reason recorded_at cycle =
    append_refusal refusals next key reason recorded_at cycle none none none none

-- `decide_invalid_history` where no refusal answers yet; its history has no refusals.
unfoldable pub refuse_invalid_history :
    LifecycleCommand → UtcInstant → Option ℕ → Result LifecycleDecision
refuse_invalid_history (advance_command c) recorded_at next =
    append_bare_refusal [] next (some c.request.idempotency_key)
      AdvanceFailureReason.invalid_durable_state recorded_at (some c.request.session)
refuse_invalid_history (input_refusal c) recorded_at next =
    if is_none c.idempotency_key
    then append_bare_refusal [] next none AdvanceFailureReason.invalid_idempotency_key recorded_at
        c.cycle
    else append_bare_refusal [] next c.idempotency_key AdvanceFailureReason.invalid_durable_state
        recorded_at c.cycle

abbrev pub answer :
    Option AdvanceReceipt → LifecycleCommand → UtcInstant → Option ℕ → Result LifecycleDecision
answer (some receipt) command recorded_at next = ok (return_receipt receipt)
answer none command recorded_at next = refuse_invalid_history command recorded_at next

unfoldable pub decide_invalid_history :
    List DurableAdvanceRefusal → LifecycleCommand → UtcInstant → Option ℕ → Result LifecycleDecision
decide_invalid_history refusals command recorded_at next = do
  terminal ← decide_terminal_refusal refusals command
  answer terminal command recorded_at next
