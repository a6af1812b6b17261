-- ===== src/Lifecycle/Extension/Refusals.antt =====
-- Effects that are refused: what `_append_next_event` of domain/lifecycle.py then makes durable.
use agentic_investment_os.Prelude.{
  ◌+◌, ◌≡◌, refl, ap, ◌∙◌, Bool, true, false, Option, none, some, List, ltb, ok, arith, equal_refl,
  >>=-eq-ok, Option-cases, inl, inr,
}
use agentic_investment_os.Temporal.{UtcInstant}
use agentic_investment_os.Lifecycle.Reason.{AdvanceFailureReason, same_reason}
use agentic_investment_os.Lifecycle.Checkpoint.{LifecyclePhase, EvidenceCaptureCheckpoint}
use agentic_investment_os.Lifecycle.Command.{
  AdvanceCommand, ResearchOutcome, AttentionSelection, Fingerprints,
  EvidenceCaptureCheckpoint-discrete, same_capture,
}
use agentic_investment_os.Lifecycle.Stream.{
  LifecycleEvent, LifecycleProgress, SequenceEntry, phase_number, present, entry_at, entry_at_lem,
  reconstruct_stream, reconstruct_stream-IsGathered,
}
use agentic_investment_os.Lifecycle.Extension.Phases.{reconstruct_stream-in_order}
use agentic_investment_os.Lifecycle.Receipt.{AdvanceReceipt}
use agentic_investment_os.Lifecycle.Refusal.{DurableAdvanceRefusal, append_terminal, append_refusal}
use agentic_investment_os.Lifecycle.Completed.{AdvanceRecovery}
use agentic_investment_os.Lifecycle.History.{
  LifecycleHistory, is_complete, is_associated, evidence_failure, attention_failure,
  research_failure, memory_failure, decision_failure, memory_recorded_at,
}
use agentic_investment_os.Lifecycle.Decision.{
  refuse, early_return, capture_effect, attention_effect, dossier_effect, research_effect,
  memory_effect, portfolio_effect, publication_effect, refuse_effect, append_step, append_at,
  append_next_event, append_checked, published_id, append_plain, append_attention, append_memory,
  append_portfolio, append_decision, finish, next_event,
}

same_capture_refl : (c : EvidenceCaptureCheckpoint) → same_capture c c ≡ true
unfolding same_capture
same_capture_refl c = equal_refl EvidenceCaptureCheckpoint-discrete c

-- A memory update that was refused was refused at this instant.
abbrev pub memory_refused_at : UtcInstant → Option ResearchOutcome → Bool
memory_refused_at at (some (ResearchOutcome.research_refused r)) = memory_recorded_at at (some r)
memory_refused_at at _ = true

module _ (h : Fingerprints) (history : LifecycleHistory) (c : AdvanceCommand) (at : UtcInstant)
    (p : LifecycleProgress) where
  refused_attention :
      (r : DurableAdvanceRefusal) (receipt : AdvanceReceipt)
      (capture : Option EvidenceCaptureCheckpoint) (selection : Option AttentionSelection)
      → p.checkpoints.evidence_capture ≡ capture
      → c.attention_selection ≡ selection
      → attention_effect history c at h p selection ≡ ok (some (refuse (append_terminal r receipt)))
      → 5 ≡ phase_number p.completed_phase + 1
      → is_associated r (some p) ≡ true
  unfolding attention_effect refuse_effect append_refusal is_associated attention_failure
  refused_attention r receipt none selection captured chosen early next =
      ground (arith, captured, early)
  refused_attention r receipt (some capture) selection captured chosen early next =
      let reason : r.reason ≡ AdvanceFailureReason.attention_selection_failed =
        ground (arith, early, captured) in
      let same : same_reason r.reason AdvanceFailureReason.attention_selection_failed ≡ true =
        rw reason refl in
      let own : r.evidence_capture ≡ some capture = ground (arith, early, captured) in
      ground (arith, early, next, captured, same, own, same_capture_refl capture)

  refused_capture :
      (r : DurableAdvanceRefusal) (receipt : AdvanceReceipt)
      → capture_effect history c at p c.evidence_capture
        ≡ ok (some (refuse (append_terminal r receipt)))
      → 4 ≡ phase_number p.completed_phase + 1
      → is_associated r (some p) ≡ true
  unfolding capture_effect refuse_effect append_refusal is_associated evidence_failure
  refused_capture r receipt early next =
      let reason : r.reason ≡ AdvanceFailureReason.evidence_capture_failed =
        ground (arith, early) in
      let same : same_reason r.reason AdvanceFailureReason.evidence_capture_failed ≡ true =
        rw reason refl in
      ground (arith, early, next, same)

  refused_dossiers :
      (r : DurableAdvanceRefusal) (receipt : AdvanceReceipt)
      → dossier_effect history c at p c.dossier_build
        ≡ ok (some (refuse (append_terminal r receipt)))
      → 6 ≡ phase_number p.completed_phase + 1
      → is_associated r (some p) ≡ true
  unfolding dossier_effect refuse_effect append_refusal is_associated research_failure
  refused_dossiers r receipt early next =
      let reason : r.reason ≡ AdvanceFailureReason.research_failed = ground (arith, early) in
      let same : same_reason r.reason AdvanceFailureReason.research_failed ≡ true =
        rw reason refl in
      ground (arith, early, next, same)

  refused_research :
      (r : DurableAdvanceRefusal) (receipt : AdvanceReceipt)
      → research_effect history c at p c.research_run
        ≡ ok (some (refuse (append_terminal r receipt)))
      → 7 ≡ phase_number p.completed_phase + 1
      → is_associated r (some p) ≡ true
  unfolding research_effect refuse_effect append_refusal is_associated research_failure
  refused_research r receipt early next =
      let reason : r.reason ≡ AdvanceFailureReason.research_failed = ground (arith, early) in
      let same : same_reason r.reason AdvanceFailureReason.research_failed ≡ true =
        rw reason refl in
      ground (arith, early, next, same)

  refused_memory :
      (r : DurableAdvanceRefusal) (receipt : AdvanceReceipt)
      → memory_effect history c at p c.memory_update
        ≡ ok (some (refuse (append_terminal r receipt)))
      → 8 ≡ phase_number p.completed_phase + 1
      → memory_refused_at at c.memory_update ≡ true
      → is_associated r (some p) ≡ true
  unfolding memory_effect refuse_effect append_refusal is_associated memory_failure
  refused_memory r receipt early next timely =
      let reason : r.reason ≡ AdvanceFailureReason.memory_update_failed = ground (arith, early) in
      let same : same_reason r.reason AdvanceFailureReason.memory_update_failed ≡ true =
        rw reason refl in
      ground (arith, early, next, same, timely)

  refused_publication :
      (r : DurableAdvanceRefusal) (receipt : AdvanceReceipt)
      → publication_effect history c at p c.decision_publication
        ≡ ok (some (refuse (append_terminal r receipt)))
      → 10 ≡ phase_number p.completed_phase + 1
      → is_complete p ≡ false
      → present p.checkpoints.portfolio_checkpoint ≡ true
      → is_associated r (some p) ≡ true
  unfolding publication_effect refuse_effect append_refusal is_associated decision_failure
      is_complete
  refused_publication r receipt early next incomplete built =
      let reason : r.reason ≡ AdvanceFailureReason.decision_publication_failed =
        ground (arith, early) in
      let same : same_reason r.reason AdvanceFailureReason.decision_publication_failed ≡ true =
        rw reason refl in
      ground (arith, early, next, same, incomplete, built)

  unrefused_portfolio :
      (r : DurableAdvanceRefusal) (receipt : AdvanceReceipt)
      → portfolio_effect history c at p c.portfolio_construction
        ≡ ok (some (refuse (append_terminal r receipt)))
      → ⊥
  unfolding portfolio_effect
  unrefused_portfolio r receipt early = ground (arith, early)

  refusal_lem :
      (phase : Option LifecyclePhase) (r : DurableAdvanceRefusal) (receipt : AdvanceReceipt)
      → early_return history c at h p phase ≡ ok (some (refuse (append_terminal r receipt)))
      → phase_number phase ≡ phase_number p.completed_phase + 1
      → is_complete p ≡ false
      → present p.checkpoints.portfolio_checkpoint ≡ ltb 9 (phase_number p.completed_phase + 1)
      → memory_refused_at at c.memory_update ≡ true
      → is_associated r (some p) ≡ true
  unfolding early_return
  refusal_lem (some LifecyclePhase.capture_evidence) r receipt early next incomplete built timely =
      refused_capture r receipt early next
  refusal_lem (some LifecyclePhase.select_attention) r receipt early next incomplete built timely =
      refused_attention r receipt p.checkpoints.evidence_capture c.attention_selection refl refl
        early next
  refusal_lem (some LifecyclePhase.build_dossiers) r receipt early next incomplete built timely =
      refused_dossiers r receipt early next
  refusal_lem (some LifecyclePhase.run_research) r receipt early next incomplete built timely =
      refused_research r receipt early next
  refusal_lem (some LifecyclePhase.update_memory) r receipt early next incomplete built timely =
      refused_memory r receipt early next timely
  refusal_lem (some LifecyclePhase.construct_portfolio) r receipt early next incomplete built
        timely =
      absurd (unrefused_portfolio r receipt early)
  refusal_lem (some LifecyclePhase.publish_decision) r receipt early next incomplete built timely =
      refused_publication r receipt early next incomplete (ground (arith, built, next))
  refusal_lem none r receipt early next incomplete built timely = cc
  refusal_lem (some LifecyclePhase.reconcile_prior_state) r receipt early next incomplete built
        timely =
      cc
  refusal_lem (some LifecyclePhase.pin_run_inputs) r receipt early next incomplete built timely = cc
  refusal_lem (some LifecyclePhase.snapshot_universe) r receipt early next incomplete built timely =
      cc
  refusal_lem (some LifecyclePhase.await_execution) r receipt early next incomplete built timely =
      cc

  append_checked-appends :
      (recovery : AdvanceRecovery) (e : LifecycleEvent) (phase : Option LifecyclePhase)
      (r : DurableAdvanceRefusal) (receipt : AdvanceReceipt)
      → append_checked h p at history c recovery e phase ≡ ok (refuse (append_terminal r receipt))
      → ⊥
  unfolding append_checked append_plain append_attention append_memory append_portfolio
      append_decision finish
  append_checked-appends recovery e phase r receipt checked = ground (arith, checked)

  append_at-refuses :
      (recovery : AdvanceRecovery) (s : Option SequenceEntry) (r : DurableAdvanceRefusal)
      (receipt : AdvanceReceipt)
      → entry_at (p.sequence + 1) ≡ s
      → append_at h p at history c recovery s ≡ ok (refuse (append_terminal r receipt))
      → (found : SequenceEntry) × (entry_at (p.sequence + 1) ≡ some found)
        × (early_return history c at h p found.phase
            ≡ ok (some (refuse (append_terminal r receipt))))
  unfolding append_at append_step
  append_at-refuses recovery none r receipt found passed = cc
  append_at-refuses recovery (some s) r receipt found passed =
      let (early, returned, step) = >>=-eq-ok (early_return history c at h p s.phase) _ passed in
      elim (Option-cases early) [
        | inl absent ↦
            let step_on : append_step h p at history c recovery s none
                ≡ ok (refuse (append_terminal r receipt)) =
              ground (arith, step, absent) in
            let (published, named, checked) =
              >>=-eq-ok (published_id p s.publishes_snapshot) _ step_on in
            absurd (
              append_checked-appends recovery (next_event h c (p.sequence + 1) s at published)
                s.phase r receipt checked)
        | inr (other, early_is) ↦
            let same : other ≡ refuse (append_terminal r receipt) =
              ground (arith, step, early_is) in
            (s, found, ground (arith, returned, early_is, same))
      ]

-- A refusal that `_append_next_event` makes durable against a reconstructed stream that is not complete
-- is one that the reconstruction of the history accepts for that stream; a refused memory update was
-- refused at the instant of the refusal.
pub refusal-IsAssociated :
    (h : Fingerprints) (first : LifecycleEvent) (rest : List LifecycleEvent) (p : LifecycleProgress)
    (history : LifecycleHistory) (c : AdvanceCommand) (recovery : AdvanceRecovery) (at : UtcInstant)
    (r : DurableAdvanceRefusal) (receipt : AdvanceReceipt)
    → reconstruct_stream h first rest ≡ ok p
    → is_complete p ≡ false
    → memory_refused_at at c.memory_update ≡ true
    → append_next_event h history p c recovery at ≡ ok (refuse (append_terminal r receipt))
    → is_associated r (some p) ≡ true
unfolding append_next_event
refusal-IsAssociated h first rest p history c recovery at r receipt made incomplete timely decided =
    let g = reconstruct_stream-IsGathered h first rest p made in
    let (own, bounded, t, at_p, phased) = reconstruct_stream-in_order h first rest p made in
    let numbered : phase_number p.completed_phase ≡ p.sequence =
      ap phase_number phased ∙ (entry_at_lem p.sequence t at_p).own_phase in
    let (s, found, early) =
      append_at-refuses h history c at p recovery (entry_at (p.sequence + 1)) r receipt refl
        decided in
    let next : phase_number s.phase ≡ phase_number p.completed_phase + 1 =
      omega (arith, (entry_at_lem (p.sequence + 1) s found).own_phase, numbered) in
    let built : present p.checkpoints.portfolio_checkpoint
        ≡ ltb 9 (phase_number p.completed_phase + 1) =
      ground (arith, g.has_portfolio, numbered) in
    refusal_lem h history c at p s.phase r receipt early next incomplete built timely
