-- ===== src/Lifecycle/Status/Derive.antt =====
-- `derive_lifecycle_status` of domain/lifecycle.py.
use agentic_investment_os.Prelude.{
  ◌+◌, Bool, true, false, Option, none, some, List, [], ◌∷◌, Result, ok, err, index_error, ◌>>=◌,
  if◌then◌else◌, get_last?,
}
use agentic_investment_os.Lifecycle.Checkpoint.{LifecyclePhase}
use agentic_investment_os.Lifecycle.Command.{Fingerprints}
use agentic_investment_os.Lifecycle.Stream.{
  LifecycleProgress, SequenceEntry, entry_at, is_phase, or_else,
}
use agentic_investment_os.Lifecycle.Refusal.{DurableAdvanceRefusal}
use agentic_investment_os.Lifecycle.History.{
  LifecycleHistory, DurableAdvanceConflict, is_complete, reconstruct_lifecycle,
}
use agentic_investment_os.Lifecycle.Decide.{reason_of}
use agentic_investment_os.Lifecycle.Status.Facts.{
  LifecycleLiveness, LifecycleStatus, status_not_started, latest, latest_where, is_published,
  cycle_of, snapshot_id_of, has_artifact, artifact_id_of, last_refusal, reported_reason,
}

abbrev is_awaiting : LifecycleProgress → Bool
is_awaiting current = is_phase current.completed_phase LifecyclePhase.publish_decision

abbrev when {ℓ} : {A : Type ℓ} → Bool → Option A → Option A
when true a = a
when false a = none

abbrev phase_at : Option SequenceEntry → Result (Option LifecyclePhase)
phase_at none = err index_error
phase_at (some s) = ok s.phase

-- `_EVENT_SEQUENCE[current.sequence + 1][1]` of a stream that is not complete
unfoldable pub next_phase : LifecycleProgress → Result (Option LifecyclePhase)
next_phase current =
    if is_complete current then ok none else phase_at (entry_at (current.sequence + 1))

abbrev pub refusals_status : DurableAdvanceRefusal → LifecycleStatus
refusals_status r = record status_not_started {
  liveness = LifecycleLiveness.failed_closed;
  durable_reason = some r.reason;
}

-- `history.refusals[-1]`
abbrev status_without_stream : Option DurableAdvanceRefusal → Result LifecycleStatus
status_without_stream none = err index_error
status_without_stream (some r) = ok (refusals_status r)

-- The status without streams
unfoldable pub status_of_refusals :
    List DurableAdvanceRefusal → List DurableAdvanceConflict → Result LifecycleStatus
status_of_refusals [] [] = ok status_not_started
status_of_refusals [] (c ∷ cs) = status_without_stream none
status_of_refusals (r ∷ rs) cs = status_without_stream (get_last? (r ∷ rs))

module _ (history : LifecycleHistory) (ps : List LifecycleProgress) where
  -- The status that the latest stream's refusal leaves
  abbrev refused_status : LifecycleProgress → DurableAdvanceRefusal → LifecycleStatus
  refused_status current r = record status_not_started {
    universe_snapshot_cycle = cycle_of (latest_where is_published ps);
    pinned_run_identity = some current.pinned_run_identity;
    liveness = LifecycleLiveness.failed_closed;
    durable_reason = some r.reason;
    universe_snapshot_id = snapshot_id_of (latest_where is_published ps);
    attention_artifact_cycle = cycle_of (latest_where has_artifact ps);
    attention_artifact_id = artifact_id_of (latest_where has_artifact ps);
  }

  abbrev pub active_status : LifecycleProgress → Option LifecyclePhase → LifecycleStatus
  active_status current next =
      let awaiting = is_awaiting current in
      let decision = when awaiting current.checkpoints.decision_checkpoint in
      record {
        active_phase = if awaiting then some LifecyclePhase.await_execution else next;
        last_completed_cycle = when awaiting (some current.pinned_run_identity.cycle);
        universe_snapshot_cycle = cycle_of (latest_where is_published ps);
        pinned_run_identity = some current.pinned_run_identity;
        liveness = LifecycleLiveness.active;
        durable_reason = reported_reason history.refusals history.conflicts;
        universe_snapshot_id = snapshot_id_of (latest_where is_published ps);
        attention_artifact_cycle = cycle_of (latest_where has_artifact ps);
        attention_artifact_id = artifact_id_of (latest_where has_artifact ps);
        no_action_reason =
            when (is_complete current)
              (or_else current.checkpoints.no_action_reason (reason_of decision));
        portfolio_checkpoint = when (is_complete current) current.checkpoints.portfolio_checkpoint;
        decision_checkpoint = decision;
      }

  unfoldable pub status_of_stream :
      LifecycleProgress → Option DurableAdvanceRefusal → Result LifecycleStatus
  unfolding next_phase
  status_of_stream current (some r) = ok (refused_status current r)
  status_of_stream current none = do next ← next_phase current; ok (active_status current next)

unfoldable pub status_of_streams :
    LifecycleHistory → List LifecycleProgress → Result LifecycleStatus
unfolding status_of_stream status_of_refusals
status_of_streams history [] = status_of_refusals history.refusals history.conflicts
status_of_streams history (p ∷ ps) =
    let current = latest p ps in
    status_of_stream history (p ∷ ps) current
      (last_refusal current.request.idempotency_key history.refusals)

unfoldable pub derive_lifecycle_status : Fingerprints → LifecycleHistory → Result LifecycleStatus
unfolding status_of_streams
derive_lifecycle_status h history = do
  ps ← reconstruct_lifecycle h history
  status_of_streams history ps
