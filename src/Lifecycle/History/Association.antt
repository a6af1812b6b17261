-- ===== src/Lifecycle/History/Association.antt =====
-- `_validate_refusals` and `_validate_conflicts` of domain/lifecycle.py. All their failures raise one
-- exception, so each is a test.
use agentic_investment_os.Prelude.{
  ℕ, suc, Bool, true, false, ◌&&◌, ◌||◌, not, Option, none, some, List, [], ◌∷◌, String, str_eq,
  ◌==◌,
}
use agentic_investment_os.Temporal.{UtcInstant}
use agentic_investment_os.Lifecycle.Reason.{AdvanceFailureReason, same_reason}
use agentic_investment_os.Lifecycle.Checkpoint.{
  LifecyclePhase, EvidenceCaptureCheckpoint, ResearchRefusal, MemoryUpdateRefusal,
  is_complete_capture,
}
use agentic_investment_os.Lifecycle.Portfolio.{PortfolioCheckpoint, is_refused}
use agentic_investment_os.Lifecycle.Command.{same_capture}
use agentic_investment_os.Lifecycle.Stream.{LifecycleProgress, is_phase, present, same}
use agentic_investment_os.Lifecycle.Refusal.{DurableAdvanceRefusal, equal_cycles}
use agentic_investment_os.Lifecycle.History.Records.{
  DurableAdvanceConflict, is_complete, find_progress,
}

abbrev pub incomplete_capture : Option EvidenceCaptureCheckpoint → Bool
incomplete_capture none = false
incomplete_capture (some c) = not (is_complete_capture c)

abbrev pub complete_capture : Option EvidenceCaptureCheckpoint → Bool
complete_capture none = false
complete_capture (some c) = is_complete_capture c

abbrev pub same_captures :
    Option EvidenceCaptureCheckpoint → Option EvidenceCaptureCheckpoint → Bool
same_captures (some c) (some d) = same_capture c d
same_captures _ _ = false

abbrev recorded_by : UtcInstant → Option MemoryUpdateRefusal → Bool
recorded_by at none = false
recorded_by at (some m) = m.recorded_at.value == at.value

abbrev pub memory_recorded_at : UtcInstant → Option ResearchRefusal → Bool
memory_recorded_at at none = false
memory_recorded_at at (some r) = recorded_by at r.memory_update_refusal

abbrev pub authorized_portfolio : Option PortfolioCheckpoint → Bool
authorized_portfolio none = false
authorized_portfolio (some p) = not (is_refused p)

-- Which of the four facts a refusal carries
abbrev carries : DurableAdvanceRefusal → Bool → Bool → Bool → Bool → Bool
carries r evidence attention research publication =
    same (present r.evidence_capture) evidence
    && same (present r.attention_refusal_reason) attention
    && same (present r.research_refusal) research
    && same (present r.decision_publication_refusal) publication

abbrev pub is_bare : DurableAdvanceRefusal → Bool
is_bare r = carries r false false false false

unfoldable pub evidence_failure : DurableAdvanceRefusal → LifecycleProgress → Bool
evidence_failure r p =
    same_reason r.reason AdvanceFailureReason.evidence_capture_failed
    && is_phase p.completed_phase LifecyclePhase.snapshot_universe
    && incomplete_capture r.evidence_capture
    && carries r true false false false

unfoldable pub attention_failure : DurableAdvanceRefusal → LifecycleProgress → Bool
attention_failure r p =
    same_reason r.reason AdvanceFailureReason.attention_selection_failed
    && is_phase p.completed_phase LifecyclePhase.capture_evidence
    && same_captures r.evidence_capture p.checkpoints.evidence_capture
    && carries r true true false false

unfoldable pub idempotency_conflict : DurableAdvanceRefusal → LifecycleProgress → Bool
unfolding is_complete
idempotency_conflict r p =
    same_reason r.reason AdvanceFailureReason.idempotency_key_conflict
    && not (is_complete p)
    && is_bare r

unfoldable pub research_failure : DurableAdvanceRefusal → LifecycleProgress → Bool
research_failure r p =
    same_reason r.reason AdvanceFailureReason.research_failed
    && (is_phase p.completed_phase LifecyclePhase.select_attention
        || is_phase p.completed_phase LifecyclePhase.build_dossiers)
    && carries r false false true false

unfoldable pub memory_failure : DurableAdvanceRefusal → LifecycleProgress → Bool
memory_failure r p =
    same_reason r.reason AdvanceFailureReason.memory_update_failed
    && is_phase p.completed_phase LifecyclePhase.run_research
    && memory_recorded_at r.recorded_at r.research_refusal
    && carries r false false true false

unfoldable pub decision_failure : DurableAdvanceRefusal → LifecycleProgress → Bool
decision_failure r p =
    same_reason r.reason AdvanceFailureReason.decision_publication_failed
    && is_phase p.completed_phase LifecyclePhase.construct_portfolio
    && authorized_portfolio p.checkpoints.portfolio_checkpoint
    && carries r false false false true

-- The reasons that only a request with a stream fails for.
unfoldable pub needs_stream : AdvanceFailureReason → Bool
needs_stream r =
    same_reason r AdvanceFailureReason.idempotency_key_conflict
    || same_reason r AdvanceFailureReason.invalid_durable_state
    || same_reason r AdvanceFailureReason.evidence_capture_failed
    || same_reason r AdvanceFailureReason.attention_selection_failed
    || same_reason r AdvanceFailureReason.research_failed
    || same_reason r AdvanceFailureReason.memory_update_failed
    || same_reason r AdvanceFailureReason.decision_publication_failed

-- A refusal with a key, and the stream of that key
unfoldable pub is_associated : DurableAdvanceRefusal → Option LifecycleProgress → Bool
unfolding needs_stream evidence_failure attention_failure research_failure memory_failure
    decision_failure idempotency_conflict
is_associated r none = not (needs_stream r.reason) && is_bare r
is_associated r (some p) =
    evidence_failure r p
    || attention_failure r p
    || research_failure r p
    || memory_failure r p
    || decision_failure r p
    || idempotency_conflict r p

abbrev pub is_text_in : String → List String → Bool
is_text_in s [] = false
is_text_in s (t ∷ ts) = str_eq s t || is_text_in s ts

-- A reason and a cycle among those of the refusals without a key
abbrev pub is_identity_in : DurableAdvanceRefusal → List DurableAdvanceRefusal → Bool
is_identity_in r [] = false
is_identity_in r (s ∷ ss) =
    (same_reason r.reason s.reason && equal_cycles r.cycle s.cycle) || is_identity_in r ss

abbrev keyed_as : DurableAdvanceRefusal → Option String → List String → List String
keyed_as r none keys = keys
keyed_as r (some key) keys = key ∷ keys

abbrev unkeyed_as :
    DurableAdvanceRefusal → Option String → List DurableAdvanceRefusal → List DurableAdvanceRefusal
unkeyed_as r none unkeyed = r ∷ unkeyed
unkeyed_as r (some key) unkeyed = unkeyed

-- One round of the loop, with the keys and the refusals without a key before it
unfoldable pub refusal_is_valid :
    List LifecycleProgress
    → List String
    → List DurableAdvanceRefusal
    → DurableAdvanceRefusal
    → Option String
    → Bool
unfolding is_associated find_progress
refusal_is_valid ps keys unkeyed r none =
    same_reason r.reason AdvanceFailureReason.invalid_idempotency_key
    && is_bare r
    && not (is_identity_in r unkeyed)
refusal_is_valid ps keys unkeyed r (some key) =
    not (same_reason r.reason AdvanceFailureReason.invalid_idempotency_key)
    && not (is_text_in key keys)
    && is_associated r (find_progress key ps)

unfoldable pub refusals_from :
    List LifecycleProgress
    → List String
    → List DurableAdvanceRefusal
    → ℕ
    → List DurableAdvanceRefusal
    → Bool
unfolding refusal_is_valid
refusals_from ps keys unkeyed expected [] = true
refusals_from ps keys unkeyed expected (r ∷ rs) =
    r.sequence == expected
    && refusal_is_valid ps keys unkeyed r r.idempotency_key
    && refusals_from ps (keyed_as r r.idempotency_key keys) (unkeyed_as r r.idempotency_key unkeyed)
        (suc expected) rs

-- `_validate_refusals`
unfoldable pub validate_refusals : List DurableAdvanceRefusal → List LifecycleProgress → Bool
unfolding refusals_from
validate_refusals rs ps = refusals_from ps [] [] 1 rs

abbrev pub completed_stream : Option LifecycleProgress → Bool
completed_stream none = false
completed_stream (some p) = is_complete p

unfoldable pub conflicts_from :
    List LifecycleProgress → List String → List DurableAdvanceConflict → Bool
unfolding find_progress
conflicts_from ps keys [] = true
conflicts_from ps keys (c ∷ cs) =
    not (is_text_in c.idempotency_key keys)
    && same_reason c.reason AdvanceFailureReason.idempotency_key_conflict
    && completed_stream (find_progress c.idempotency_key ps)
    && conflicts_from ps (c.idempotency_key ∷ keys) cs

-- `_validate_conflicts`
unfoldable pub validate_conflicts : List DurableAdvanceConflict → List LifecycleProgress → Bool
unfolding conflicts_from
validate_conflicts cs ps = conflicts_from ps [] cs
