-- ===== src/Lifecycle/Reason.antt =====
-- The reasons for which an advance fails closed, in domain/lifecycle.py.
use agentic_investment_os.Prelude.{Bool, false, ◌||◌, List, [], ◌∷◌, String, str_eq}

pub data InputRefusalCode : Type 0 where
  invalid_session invalid_mode invalid_idempotency_key idempotency_key_conflict : InputRefusalCode
  missing_universe_input invalid_universe_input stale_universe_input : InputRefusalCode
  contradictory_universe_input missing_portfolio_input invalid_portfolio_input : InputRefusalCode
  stale_portfolio_input contradictory_portfolio_input invalid_durable_state : InputRefusalCode

pub data AdvanceFailureReason : Type 0 where
  invalid_session unsupported_cycle invalid_mode invalid_idempotency_key : AdvanceFailureReason
  missing_universe_input invalid_universe_input stale_universe_input : AdvanceFailureReason
  contradictory_universe_input missing_portfolio_input invalid_portfolio_input :
      AdvanceFailureReason
  stale_portfolio_input contradictory_portfolio_input session_stream_conflict : AdvanceFailureReason
  idempotency_key_conflict invalid_durable_state evidence_capture_failed : AdvanceFailureReason
  attention_selection_failed research_failed memory_update_failed : AdvanceFailureReason
  decision_publication_failed : AdvanceFailureReason

-- `AttentionRefusalReason` of domain/attention.py
pub data AttentionRefusalReason : Type 0 where
  missing_evidence stale_evidence contradictory_evidence corrupt_evidence : AttentionRefusalReason

pub data DecisionPublicationRefusalReason : Type 0 where
  invalid_portfolio invalid_forecasts missing_benchmark_state : DecisionPublicationRefusalReason
  invalid_validity_window signing_failed : DecisionPublicationRefusalReason

-- The value of the enumeration's member
abbrev pub reason_value : AdvanceFailureReason → String
reason_value AdvanceFailureReason.invalid_session = "invalid_session"
reason_value AdvanceFailureReason.unsupported_cycle = "unsupported_cycle"
reason_value AdvanceFailureReason.invalid_mode = "invalid_mode"
reason_value AdvanceFailureReason.invalid_idempotency_key = "invalid_idempotency_key"
reason_value AdvanceFailureReason.missing_universe_input = "missing_universe_input"
reason_value AdvanceFailureReason.invalid_universe_input = "invalid_universe_input"
reason_value AdvanceFailureReason.stale_universe_input = "stale_universe_input"
reason_value AdvanceFailureReason.contradictory_universe_input = "contradictory_universe_input"
reason_value AdvanceFailureReason.missing_portfolio_input = "missing_portfolio_input"
reason_value AdvanceFailureReason.invalid_portfolio_input = "invalid_portfolio_input"
reason_value AdvanceFailureReason.stale_portfolio_input = "stale_portfolio_input"
reason_value AdvanceFailureReason.contradictory_portfolio_input = "contradictory_portfolio_input"
reason_value AdvanceFailureReason.session_stream_conflict = "session_stream_conflict"
reason_value AdvanceFailureReason.idempotency_key_conflict = "idempotency_key_conflict"
reason_value AdvanceFailureReason.invalid_durable_state = "invalid_durable_state"
reason_value AdvanceFailureReason.evidence_capture_failed = "evidence_capture_failed"
reason_value AdvanceFailureReason.attention_selection_failed = "attention_selection_failed"
reason_value AdvanceFailureReason.research_failed = "research_failed"
reason_value AdvanceFailureReason.memory_update_failed = "memory_update_failed"
reason_value AdvanceFailureReason.decision_publication_failed = "decision_publication_failed"

-- `is` on members: their values differ.
abbrev pub same_reason : AdvanceFailureReason → AdvanceFailureReason → Bool
same_reason a b = str_eq (reason_value a) (reason_value b)

unfoldable pub input_failure_reason : InputRefusalCode → AdvanceFailureReason
input_failure_reason InputRefusalCode.invalid_session = AdvanceFailureReason.invalid_session
input_failure_reason InputRefusalCode.invalid_mode = AdvanceFailureReason.invalid_mode
input_failure_reason InputRefusalCode.invalid_idempotency_key =
    AdvanceFailureReason.invalid_idempotency_key
input_failure_reason InputRefusalCode.idempotency_key_conflict =
    AdvanceFailureReason.idempotency_key_conflict
input_failure_reason InputRefusalCode.missing_universe_input =
    AdvanceFailureReason.missing_universe_input
input_failure_reason InputRefusalCode.invalid_universe_input =
    AdvanceFailureReason.invalid_universe_input
input_failure_reason InputRefusalCode.stale_universe_input =
    AdvanceFailureReason.stale_universe_input
input_failure_reason InputRefusalCode.contradictory_universe_input =
    AdvanceFailureReason.contradictory_universe_input
input_failure_reason InputRefusalCode.missing_portfolio_input =
    AdvanceFailureReason.missing_portfolio_input
input_failure_reason InputRefusalCode.invalid_portfolio_input =
    AdvanceFailureReason.invalid_portfolio_input
input_failure_reason InputRefusalCode.stale_portfolio_input =
    AdvanceFailureReason.stale_portfolio_input
input_failure_reason InputRefusalCode.contradictory_portfolio_input =
    AdvanceFailureReason.contradictory_portfolio_input
input_failure_reason InputRefusalCode.invalid_durable_state =
    AdvanceFailureReason.invalid_durable_state

-- `InputRefusalCode` in its order, but for `invalid_durable_state`
abbrev input_codes : List InputRefusalCode
input_codes =
    InputRefusalCode.invalid_session ∷ InputRefusalCode.invalid_mode
    ∷ InputRefusalCode.invalid_idempotency_key ∷ InputRefusalCode.idempotency_key_conflict
    ∷ InputRefusalCode.missing_universe_input ∷ InputRefusalCode.invalid_universe_input
    ∷ InputRefusalCode.stale_universe_input ∷ InputRefusalCode.contradictory_universe_input
    ∷ InputRefusalCode.missing_portfolio_input ∷ InputRefusalCode.invalid_portfolio_input
    ∷ InputRefusalCode.stale_portfolio_input ∷ InputRefusalCode.contradictory_portfolio_input ∷ []

unfoldable reason_of_some : AdvanceFailureReason → List InputRefusalCode → Bool
unfolding input_failure_reason
reason_of_some r [] = false
reason_of_some r (c ∷ cs) = same_reason r (input_failure_reason c) || reason_of_some r cs

-- `reason in _INPUT_FAILURE_REASONS`
unfoldable pub is_input_failure_reason : AdvanceFailureReason → Bool
unfolding reason_of_some
is_input_failure_reason r = reason_of_some r input_codes
