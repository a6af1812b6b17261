-- ===== src/Lifecycle/Stream/Reconstruct.antt =====
-- `_reconstruct_stream` of domain/lifecycle.py.
use agentic_investment_os.Prelude.{
  ℕ, suc, Bool, ◌&&◌, ◌||◌, not, Option, none, some, List, [], ◌∷◌, str_eq, ◌==◌, ltb, leb, length,
  Result, ok, err, invalid_lifecycle_state, index_error, ◌>>=◌, if◌then◌else◌,
}
use agentic_investment_os.Scheduler.Status.{is_hash}
use agentic_investment_os.Scheduler.Host.{same_cycle}
use agentic_investment_os.Lifecycle.Command.{Fingerprints, stream_id, run_material}
use agentic_investment_os.Lifecycle.Stream.Order.{SequenceEntry, entry_at}
use agentic_investment_os.Lifecycle.Stream.Events.{
  LifecycleEvent, LifecycleProgress, Checkpoints, no_checkpoints, observe,
}
use agentic_investment_os.Lifecycle.Stream.Checks.{shape_is_valid, facts_are_consistent, is_pinned}

-- The body of the loop, at the entry of `_EVENT_SEQUENCE`
abbrev pub check_at :
    Fingerprints
    → LifecycleEvent
    → ℕ
    → Checkpoints
    → LifecycleEvent
    → Option SequenceEntry
    → Result Checkpoints
check_at h first sequence c e none = err index_error
check_at h first sequence c e (some s) =
    if e.sequence == sequence
      && is_pinned first e
      && shape_is_valid e s
      && facts_are_consistent h first.pinned_run_identity e (observe s e c)
    then ok (observe s e c)
    else err invalid_lifecycle_state

unfoldable pub check_event :
    Fingerprints → LifecycleEvent → ℕ → Checkpoints → LifecycleEvent → Result Checkpoints
check_event h first sequence c e = check_at h first sequence c e (entry_at sequence)

unfoldable pub check_events :
    Fingerprints → LifecycleEvent → ℕ → Checkpoints → List LifecycleEvent → Result Checkpoints
check_events h first sequence c [] = ok c
check_events h first sequence c (e ∷ es) =
    check_event h first sequence c e >>= λ d. check_events h first (suc sequence) d es

-- The checks of `_reconstruct_stream` before the loop, but for the length
unfoldable pub identity_is_valid : Fingerprints → LifecycleEvent → Bool
identity_is_valid h first =
    let i = first.pinned_run_identity in
    i.configuration_version == 1
    && is_hash i.research_policy_hash
    && is_hash i.portfolio_policy_hash
    && is_hash i.portfolio_input_hash
    && leb 1 i.constitution_version
    && is_hash i.constitution_hash
    && same_cycle i.cycle first.request.session
    && str_eq first.stream_id (stream_id h first.request)
    && str_eq i.run_id (h.run_fingerprint (run_material first.request i))

abbrev pub last_event : LifecycleEvent → List LifecycleEvent → LifecycleEvent
last_event e [] = e
last_event e (f ∷ es) = last_event f es

abbrev pub sequence_length : ℕ
sequence_length = 11

-- `_reconstruct_stream` of the events `first ∷ rest`
unfoldable pub reconstruct_stream :
    Fingerprints → LifecycleEvent → List LifecycleEvent → Result LifecycleProgress
reconstruct_stream h first rest =
    if not (identity_is_valid h first) || ltb sequence_length (length (first ∷ rest))
    then err invalid_lifecycle_state
    else do
      c ← check_events h first 0 no_checkpoints (first ∷ rest)
      ok (record {
        request = first.request;
        pinned_run_identity = first.pinned_run_identity;
        completed_phase = (last_event first rest).completed_phase;
        sequence = length rest;
        checkpoints = c;
      })
