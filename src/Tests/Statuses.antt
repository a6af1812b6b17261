-- ===== src/Tests/Statuses.antt =====
-- The status of a complete run, and of two runs that have begun.
use native.Mathlib.Decide.{ℕ_discrete}
use agentic_investment_os.Prelude.{
  ◌+◌, ◌≡◌, ◌≢◌, refl, arith, none, some, [], ◌∷◌, ok, String, str_eq, eq_iff, false, ltb,
  if◌then◌else◌, equal, String-discrete,
}
use agentic_investment_os.Calendar.{date}
use agentic_investment_os.Scheduler.Status.{is_hash}
use agentic_investment_os.Scheduler.Policy.{MarketSession}
use agentic_investment_os.Lifecycle.Reason.{AdvanceFailureReason}
use agentic_investment_os.Lifecycle.Command.{
  AdvanceCommand, Fingerprints, same_request, AdvanceRequest-discrete, same_identity,
  PinnedRunIdentity-discrete,
}
use agentic_investment_os.Lifecycle.Stream.{
  LifecycleEvent, LifecycleProgress, no_checkpoints, phase_number, entry_at, reconstruct_stream,
  check_events, check_event, identity_is_valid, is_pinned, shape_is_valid, facts_are_consistent,
  observe, snapshot_fits,
}
use agentic_investment_os.Lifecycle.Refusal.{DurableAdvanceRefusal}
use agentic_investment_os.Lifecycle.History.{
  LifecycleHistory, group_events, reconstruct_streams, history_is_valid, reconstruct_lifecycle,
  validate_refusals, refusals_from, validate_conflicts, conflicts_from, distinct_keys,
  attention_history, add_event, is_complete, refusal_is_valid, is_associated, find_progress,
}
use agentic_investment_os.Lifecycle.Decide.{first_event}
use agentic_investment_os.Lifecycle.Status.{
  LifecycleStatus, LifecycleLiveness, derive_lifecycle_status,
}
use agentic_investment_os.Lifecycle.Status.Total.{status_total}
use agentic_investment_os.Lifecycle.Status.Active.{status_active}
use agentic_investment_os.Tests.Fixture.{monday}
use agentic_investment_os.Tests.Streams.{prints, cutoff, identity, command}
use agentic_investment_os.Tests.Advances.{first, whole_run, final_progress, whole_run_reconstructed}

abbrev history : LifecycleHistory
history = record {
  events = first ∷ whole_run;
  refusals = [];
  conflicts = [];
  occupied_stream_ids = [];
  next_refusal_sequence = none;
}

history_reconstructed : reconstruct_lifecycle prints history ≡ ok (final_progress ∷ [])
unfolding reconstruct_lifecycle group_events reconstruct_streams history_is_valid validate_refusals
    refusals_from validate_conflicts conflicts_from distinct_keys attention_history add_event
history_reconstructed = rw whole_run_reconstructed refl

status_total_example : (s : LifecycleStatus) × (derive_lifecycle_status prints history ≡ ok s)
status_total_example = status_total prints history (final_progress ∷ []) history_reconstructed

-- Two runs that have only been requested, each with a stream of its own
abbrev by_date : Fingerprints
by_date = record prints {
  stream_fingerprint = λ c. if ltb monday.trading_date c.trading_date then "later" else "stream";
}

abbrev tuesday : MarketSession
tuesday = record { trading_date = date 2026 3 10 }

abbrev tuesday_command : AdvanceCommand
tuesday_command = record command {
  request = record { session = tuesday; idempotency_key = "request-2" };
  pinned_run_identity = record identity { cycle = tuesday };
}

abbrev monday_start : LifecycleEvent
monday_start = first_event by_date command cutoff

abbrev tuesday_start : LifecycleEvent
tuesday_start = first_event by_date tuesday_command cutoff

abbrev started : LifecycleEvent → LifecycleProgress
started e = record {
  request = e.request;
  pinned_run_identity = e.pinned_run_identity;
  completed_phase = none;
  sequence = 0;
  checkpoints = no_checkpoints;
}

-- A refusal of a third request
abbrev other_refusal : DurableAdvanceRefusal
other_refusal = record {
  sequence = 1;
  idempotency_key = some "request-3";
  reason = AdvanceFailureReason.invalid_mode;
  recorded_at = cutoff;
  cycle = some monday;
  evidence_capture = none;
  attention_refusal_reason = none;
  research_refusal = none;
  decision_publication_refusal = none;
}

abbrev two_runs : LifecycleHistory
two_runs = record history {
  events = monday_start ∷ tuesday_start ∷ [];
  refusals = other_refusal ∷ [];
}

two_runs_reconstructed :
    reconstruct_lifecycle by_date two_runs ≡ ok (started monday_start ∷ started tuesday_start ∷ [])
unfolding reconstruct_lifecycle group_events reconstruct_streams history_is_valid validate_refusals
    refusals_from validate_conflicts conflicts_from distinct_keys attention_history add_event
    reconstruct_stream check_events check_event entry_at identity_is_valid is_pinned shape_is_valid
    facts_are_consistent observe is_hash same_request AdvanceRequest-discrete same_identity
    PinnedRunIdentity-discrete equal ℕ_discrete String-discrete refusal_is_valid is_associated
    find_progress snapshot_fits
two_runs_reconstructed = refl

status_active_example :
    (s : LifecycleStatus) × (derive_lifecycle_status by_date two_runs ≡ ok s)
    × (s.liveness ≡ LifecycleLiveness.active)
    × (s.pinned_run_identity ≡ some (record identity { cycle = tuesday }))
    × (phase_number s.active_phase ≡ 0 + 1)
unfolding is_complete
status_active_example =
    status_active by_date two_runs (started monday_start ∷ []) (started tuesday_start) []
      two_runs_reconstructed (omega arith, tt) tt
      (λ e. texts_differ "request-3" "request-2" refl (some_inj e), tt) refl
  where
    texts_differ : (s t : String) → str_eq s t ≡ false → s ≢ t
    texts_differ s t told e = let same = (eq_iff s t).1 e in ground (arith, told, same)

    some_inj : {s t : String} → some s ≡ some t → s ≡ t
    some_inj e = ground (arith, e)
