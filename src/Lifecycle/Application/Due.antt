-- ===== src/Lifecycle/Application/Due.antt =====
-- What the decisions of domain/lifecycle.py ask of a command: only the effects that it lacks.
use agentic_investment_os.Prelude.{
  ℕ, ◌+◌, ◌≡◌, refl, Bool, true, false, Option, none, some, List, Result, ok, err, is_none, leb,
  >>=-eq-ok, arith, Option-cases, inl, inr,
}
use agentic_investment_os.Temporal.{UtcInstant}
use agentic_investment_os.Lifecycle.Checkpoint.{LifecyclePhase}
use agentic_investment_os.Lifecycle.Command.{AdvanceCommand, Fingerprints}
use agentic_investment_os.Lifecycle.Stream.{
  LifecycleEvent, LifecycleProgress, SequenceEntry, entry_at, entry_at_lem,
}
use agentic_investment_os.Lifecycle.Receipt.{AdvanceReceipt}
use agentic_investment_os.Lifecycle.Refusal.{advance_command, decide_terminal_refusal}
use agentic_investment_os.Lifecycle.Completed.{AdvanceRecovery}
use agentic_investment_os.Lifecycle.History.{LifecycleHistory, reconstruct_lifecycle, find_progress}
use agentic_investment_os.Lifecycle.Decision.{
  AdvanceAttempt, AdvanceDecision, recovery_for_progress, early_return, capture_effect,
  attention_effect, dossier_effect, research_effect, memory_effect, portfolio_effect,
  publication_effect, refuse_effect, next_event, published_id, append_plain, append_attention,
  append_memory, append_portfolio, append_decision, finish, append_checked, append_step, append_at,
  append_next_event,
}
use agentic_investment_os.Lifecycle.Decide.{
  refuse_bare, answer_conflict, decide_idempotency_conflict, decide_new_stream, return_complete,
  decide_with_stream, decide_valid_advance, answer_receipt, on_reconstruction, decide_after,
  replay_matched, decide_reconstructed, invalid_history_decision, decide_advance,
}

abbrev pub is_within : Option ℕ → Bool
is_within none = false
is_within (some n) = leb n 10

-- A decision asks for an effect that the command lacks, or appends at one of the eleven positions.
abbrev pub is_due : AdvanceCommand → AdvanceDecision → Bool
is_due c (AdvanceDecision.append_event e attempt) = is_within attempt.last_sequence
is_due c (AdvanceDecision.perform_evidence_capture i s) = is_none c.evidence_capture
is_due c (AdvanceDecision.perform_attention_selection i s e l) = is_none c.attention_selection
is_due c (AdvanceDecision.perform_dossier_build i s e a) = is_none c.dossier_build
is_due c (AdvanceDecision.perform_research i d a) = is_none c.research_run
is_due c (AdvanceDecision.perform_memory_update i r a) = is_none c.memory_update
is_due c (AdvanceDecision.perform_portfolio_construction i d r m a n) =
    is_none c.portfolio_construction
is_due c (AdvanceDecision.perform_decision_publication i d r p n) = is_none c.decision_publication
is_due c _ = true

module _ (h : Fingerprints) (history : LifecycleHistory) (c : AdvanceCommand)
    (at : UtcInstant) where
  early_return-due :
      (p : LifecycleProgress) (phase : Option LifecyclePhase) (d : AdvanceDecision)
      → early_return history c at h p phase ≡ ok (some d)
      → is_due c d ≡ true
  unfolding early_return capture_effect attention_effect dossier_effect research_effect
      memory_effect portfolio_effect publication_effect refuse_effect
  early_return-due p phase d e = ground (arith, e)

  append_checked-due :
      (p : LifecycleProgress) (recovery : AdvanceRecovery) (e : LifecycleEvent)
      (phase : Option LifecyclePhase) (d : AdvanceDecision)
      → leb e.sequence 10 ≡ true
      → append_checked h p at history c recovery e phase ≡ ok d
      → is_due c d ≡ true
  unfolding append_checked append_plain append_attention append_memory append_portfolio
      append_decision finish
  append_checked-due p recovery e phase d within checked = ground (arith, within, checked)

  append_at-due :
      (p : LifecycleProgress) (recovery : AdvanceRecovery) (s : Option SequenceEntry)
      (d : AdvanceDecision)
      → entry_at (p.sequence + 1) ≡ s
      → append_at h p at history c recovery s ≡ ok d
      → is_due c d ≡ true
  unfolding append_at append_step next_event
  append_at-due p recovery none d found passed = cc
  append_at-due p recovery (some s) d found passed =
      let (early, returned, step) = >>=-eq-ok (early_return history c at h p s.phase) _ passed in
      let entry = entry_at_lem (p.sequence + 1) s found in
      elim (Option-cases early) [
        | inl absent ↦
            let step_on : append_step h p at history c recovery s none ≡ ok d =
              ground (arith, step, absent) in
            let (published, named, checked) =
              >>=-eq-ok (published_id p s.publishes_snapshot) _ step_on in
            append_checked-due p recovery (next_event h c (p.sequence + 1) s at published) s.phase d
              (ground (arith, entry.bounded)) checked
        | inr (other, early_is) ↦
            let same : other ≡ d = ground (arith, step, early_is) in
            early_return-due p s.phase d (ground (arith, returned, early_is, same))
      ]

  append_next_event-due :
      (p : LifecycleProgress) (recovery : AdvanceRecovery) (d : AdvanceDecision)
      → append_next_event h history p c recovery at ≡ ok d
      → is_due c d ≡ true
  unfolding append_next_event
  append_next_event-due p recovery d passed =
      append_at-due p recovery (entry_at (p.sequence + 1)) d refl passed

  decide_with_stream-due :
      (ps : List LifecycleProgress) (attempt : AdvanceAttempt) (p : Option LifecycleProgress)
      (d : AdvanceDecision)
      → decide_with_stream h history ps c attempt at p ≡ ok d
      → is_due c d ≡ true
  unfolding decide_with_stream decide_new_stream decide_idempotency_conflict refuse_bare
      answer_conflict return_complete
  decide_with_stream-due ps attempt none d passed = ground (arith, passed)
  decide_with_stream-due ps attempt (some p) d passed =
      ground (arith, passed, append_next_event-due p (recovery_for_progress p attempt) d)

  decide_reconstructed-due :
      (ps : List LifecycleProgress) (attempt : AdvanceAttempt) (terminal : Option AdvanceReceipt)
      (d : AdvanceDecision)
      → decide_reconstructed h history ps (advance_command c) attempt at terminal ≡ ok d
      → is_due c d ≡ true
  unfolding decide_reconstructed replay_matched answer_receipt decide_valid_advance
  decide_reconstructed-due ps attempt none d passed =
      decide_with_stream-due ps attempt (find_progress c.request.idempotency_key ps) d passed
  decide_reconstructed-due ps attempt (some r) d passed = ground (arith, passed)

  on_reconstruction-due :
      (attempt : AdvanceAttempt) (terminal : Option AdvanceReceipt) (d : AdvanceDecision)
      (streams : Result (List LifecycleProgress))
      → on_reconstruction streams
          (invalid_history_decision history (advance_command c) at)
          (λ ps. decide_reconstructed h history ps (advance_command c) attempt at terminal)
        ≡ ok d
      → is_due c d ≡ true
  unfolding invalid_history_decision
  on_reconstruction-due attempt terminal d (ok ps) passed =
      decide_reconstructed-due ps attempt terminal d passed
  on_reconstruction-due attempt terminal d (err e) passed = ground (arith, passed)

  -- A decision about a request asks for no effect that the command already has, and appends no event
  -- beyond the eleven positions of the event order.
  pub decide_advance-due :
      (attempt : AdvanceAttempt) (d : AdvanceDecision)
      → decide_advance h history (advance_command c) attempt at ≡ ok d
      → is_due c d ≡ true
  unfolding decide_advance decide_after
  decide_advance-due attempt d passed =
      let (terminal, found, later) =
        >>=-eq-ok (decide_terminal_refusal history.refusals (advance_command c)) _ passed in
      ground
        (arith, later, on_reconstruction-due attempt terminal d (reconstruct_lifecycle h history))
